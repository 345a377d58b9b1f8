-- ===== src/OrderBook/Pool.antt =====
-- OrderPool of src/order_book.cpp: the free list of nodes, threaded through their `next` fields.
-- Slot i of chunk c has the address c * chunk + i.
pub mod FreeList
pub mod Nodes
use burst_resilient_feed_han.Base.{
  ℕ, zero, suc, ◌+◌, ◌*◌, ◌≡◌, refl, Option, none, some, ◌==◌, if◌then◌else◌,
}
use burst_resilient_feed_han.OrderBook.Types.{OrderPool, blank_order, update}

unfoldable pub init : ℕ → OrderPool
init chunk = record {
  chunk = if chunk == 0 then 1 else chunk;
  chunks = 0;
  free_head = none;
  node = λ _. blank_order;
}

-- The loop of `grow` and `reset_all`: `n` slots from the address `a` up go to the front of the list.
unfoldable pub thread : ℕ → ℕ → OrderPool → OrderPool
thread zero a p = p
thread (suc n) a p = thread n (a + 1) (record p {
  node = update p.node a (record (p.node a) { next = p.free_head });
  free_head = some a;
})

unfoldable pub grow : OrderPool → OrderPool
grow p = let q = thread p.chunk (p.chunks * p.chunk) p in record q { chunks = p.chunks + 1 }

-- `if (free_head_ == nullptr) grow();`
unfoldable pub ensure : OrderPool → OrderPool
ensure p = elim p.free_head [ none ↦ grow p | some a ↦ p ]

-- The node handed out. `none` would be a null dereference: the laws of the pool rule it out.
unfoldable pub alloc : OrderPool → Option ℕ × OrderPool
alloc p =
    let q = ensure p in
    elim q.free_head [
      | none ↦ (none, q)
      | some o ↦ (some o, record q { free_head = (q.node o).next })
    ]

unfoldable pub release : ℕ → OrderPool → OrderPool
release o p = record p {
  node = update p.node o (record (p.node o) { next = p.free_head });
  free_head = some o;
}

-- The loop of `reset_all` over the chunks, `c` the next one and `k` how many are left.
unfoldable pub thread_chunks : ℕ → ℕ → OrderPool → OrderPool
thread_chunks zero c p = p
thread_chunks (suc k) c p = thread_chunks k (c + 1) (thread p.chunk (c * p.chunk) p)

unfoldable pub reset_all : OrderPool → OrderPool
reset_all p = thread_chunks p.chunks 0 (record p { free_head = none })
