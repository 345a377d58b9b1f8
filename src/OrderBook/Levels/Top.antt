-- ===== src/OrderBook/Levels/Top.antt =====
-- The price-level path keeps the cached best indices equal to a full scan, whatever it is given.
use burst_resilient_feed_han.Base.{
  ℕ, ◌<◌, ◌≡◌, refl, sym, ◌∙◌, inl, inr, arith, Bool-cases, Option-cases, ◌==◌, ltb,
}
use burst_resilient_feed_han.Base.Int.{ℤ}
use burst_resilient_feed_han.Event.{Side, buy, sell, side_eq, side_eq_sound, side_eq-ne}
use burst_resilient_feed_han.OrderBook.Types.{OrderBook, OrderBookConfig}
use burst_resilient_feed_han.OrderBook.Best.{raise_best}
use burst_resilient_feed_han.OrderBook.Top.{IsTop}
use burst_resilient_feed_han.OrderBook.TopWrite.{
  lost-IsTop, raised-IsTop, flipped-IsTop, holds_owner, holds_empty, holds_other,
}
use burst_resilient_feed_han.OrderBook.Price.{to_index, level_count, init}
use burst_resilient_feed_han.OrderBook.Price.Laws.{
  IsConfig, normalise-IsConfig, to_index-lt-level_count,
}
use burst_resilient_feed_han.OrderBook.Levels.{clear_level, fill_level, set_level, count_applied}

pub clear_level-IsTop :
    (idx : ℕ) (b : OrderBook) → idx < b.num_levels → IsTop b → IsTop (clear_level idx b)
unfolding clear_level
clear_level-IsTop idx b h v = elim (Bool-cases (ltb 0 (b.levels idx).order_count)) [
  | inl t ↦ rw t (
      lost-IsTop b idx _ _
        (record { written = refl; sized = refl; same_bid = refl; same_ask = refl }) v h
        (b.levels idx).side refl refl (holds_owner buy (b.levels idx))
        (holds_owner sell (b.levels idx)))
  | inr t ↦ rw t v
]

-- Size at a level of a side, and the index of that side raised.
pub fill_level-IsTop :
    (side : Side) (idx size : ℕ) (b : OrderBook)
    → idx < b.num_levels
    → IsTop b
    → IsTop (raise_best side idx (fill_level side idx size b))
unfolding fill_level
fill_level-IsTop side idx size b h v = elim (Bool-cases ((b.levels idx).order_count == 0)) [
  | inl t ↦ rw t (
      raised-IsTop b idx _ _
        (record { written = refl; sized = refl; same_bid = refl; same_ask = refl }) v h side refl
        (omega arith) (λ u ne. holds_empty u (b.levels idx) (ground arith)))
  | inr t ↦ rw t (elim (Bool-cases (side_eq (b.levels idx).side side)) [
    | inl same ↦ rw same (
        raised-IsTop b idx _ _
          (record { written = refl; sized = refl; same_bid = refl; same_ask = refl }) v h side
          (side_eq_sound (b.levels idx).side side same) (ground arith)
          (λ u ne.
            holds_other u (b.levels idx)
              (λ e. ne (sym e ∙ side_eq_sound (b.levels idx).side side same))))
    | inr other ↦ rw other (
        flipped-IsTop b idx _ _
          (record { written = refl; sized = refl; same_bid = refl; same_ask = refl }) v h side
          (b.levels idx).side refl (ground arith) refl (λ e. absurd (side_eq-ne other e)))
  ])
]

-- The book's array is the one that the constructor made for its configuration.
pub record IsBanded (b : OrderBook) : Type 0 where
  pub config : IsConfig b.cfg
  pub sized : b.num_levels ≡ level_count b.cfg

pub init-IsBanded : (c : OrderBookConfig) → IsBanded (init c)
unfolding init
init-IsBanded c = record { config = normalise-IsConfig c; sized = refl }

-- On a book whose array is the one its configuration asks for: setting the size of a price level,
-- whatever the side, the price and the size, keeps both cached best indices equal to what a scan over
-- the whole array finds.
pub set_level-IsTop :
    (side : Side) (price : ℤ) (size : ℕ) (b : OrderBook)
    → IsBanded b
    → IsTop b
    → IsTop (set_level side price size b)
unfolding set_level count_applied
set_level-IsTop side price size b w v = elim (Option-cases (to_index b.cfg price)) [
  | inl e ↦ rw (e, set_level) (record { bid = v.bid; ask = v.ask })
  | inr (idx, e) ↦
      let inside : idx < b.num_levels =
        rw w.sized (to_index-lt-level_count b.cfg price idx w.config e) in
      rw (e, set_level)
        (elim (Bool-cases (size == 0)) [
          | inl z ↦
              let c = clear_level-IsTop idx b inside v in rw z (record { bid = c.bid; ask = c.ask })
          | inr p ↦
              let c = fill_level-IsTop side idx size b inside v in
              rw p (record { bid = c.bid; ask = c.ask })
        ])
]
