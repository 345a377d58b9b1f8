-- ===== src/OrderBook/Links.antt =====
-- The FIFO of a price level: `link_back` and `unlink` of src/order_book.cpp on the level and the nodes.
pub mod Chain
pub mod Fifo
use burst_resilient_feed_han.Base.{ℕ, Option, none, some}
use burst_resilient_feed_han.OrderBook.Types.{Order, PriceLevel, update}

-- `if (p) p->next = v;` and `if (p) p->prev = v;`
unfoldable pub set_next : Option ℕ → Option ℕ → (ℕ → Order) → ℕ → Order
set_next none v node = node
set_next (some p) v node = update node p (record (node p) { next = v })

unfoldable pub set_prev : Option ℕ → Option ℕ → (ℕ → Order) → ℕ → Order
set_prev none v node = node
set_prev (some p) v node = update node p (record (node p) { prev = v })

unfoldable pub link_back : PriceLevel → ℕ → (ℕ → Order) → PriceLevel × (ℕ → Order)
link_back lvl o node =
    let linked = update node o (record (node o) { prev = lvl.tail; next = none }) in
    (
      record lvl { head = elim lvl.tail [ none ↦ some o | some t ↦ lvl.head ]; tail = some o },
      set_next lvl.tail (some o) linked,
    )

unfoldable pub unlink : PriceLevel → ℕ → (ℕ → Order) → PriceLevel × (ℕ → Order)
unlink lvl o node =
    let prev = (node o).prev in
    let next = (node o).next in
    (
      record lvl {
        head = elim prev [ none ↦ next | some p ↦ lvl.head ];
        tail = elim next [ none ↦ prev | some n ↦ lvl.tail ];
      },
      set_prev next prev (set_next prev next node),
    )
