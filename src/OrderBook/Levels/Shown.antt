-- ===== src/OrderBook/Levels/Shown.antt =====
-- What the price-level path does to the levels, as a map from indices to a side and a size.
use mathlib.Core.Path.{fun_ext}
use burst_resilient_feed_han.Base.{
  ℕ, ◌≡◌, refl, ◌∙◌, Option, none, some, ◌==◌, if◌then◌else◌, arith, inl, inr, Bool-cases,
  Option-cases,
}
use burst_resilient_feed_han.Base.Int.{ℤ}
use burst_resilient_feed_han.Event.{Side, buy, sell, nobody, side_eq_sound}
use burst_resilient_feed_han.OrderBook.Types.{OrderBook, OrderBookConfig, PriceLevel, update}
use burst_resilient_feed_han.OrderBook.Price.{to_index}
use burst_resilient_feed_han.OrderBook.Best.{
  raise_best, rescan_after, rescan_best_bid_from, rescan_best_ask_from,
}
use burst_resilient_feed_han.OrderBook.Levels.{
  clear_level, fill_level, set_level, count_applied, observe_event_boundary, reset,
}

abbrev pub Depth : Type 0
Depth = ℕ → Option (Side × ℕ)

abbrev pub shown : PriceLevel → Option (Side × ℕ)
shown l = if l.order_count == 0 then none else some (l.side, l.aggregate_size)

abbrev pub depth : OrderBook → Depth
depth b = λ i. shown (b.levels i)

-- One change of a level: a size of 0 removes it, a price out of the band changes nothing.
unfoldable pub put : OrderBookConfig → Side → ℤ → ℕ → Depth → Depth
put c side price size m = elim (to_index c price) [
  | none ↦ m
  | some idx ↦ update m idx (if size == 0 then none else some (side, size))
]

module _ (b : OrderBook) (idx : ℕ) where
  clear_level-shown : (i : ℕ) → shown ((clear_level idx b).levels i) ≡ update (depth b) idx none i
  unfolding clear_level rescan_after rescan_best_bid_from rescan_best_ask_from
  clear_level-shown i = ground arith

  fill_level-shown :
      (side : Side) (size i : ℕ)
      → shown ((fill_level side idx size b).levels i) ≡ update (depth b) idx (some (side, size)) i
  unfolding fill_level rescan_after rescan_best_bid_from rescan_best_ask_from
  fill_level-shown side size i = ground (arith, side_eq_sound (b.levels idx).side side)

  cfg-clear_level : (clear_level idx b).cfg ≡ b.cfg
  unfolding clear_level rescan_after rescan_best_bid_from rescan_best_ask_from
  cfg-clear_level = ground arith

  cfg-fill_level : (side : Side) (size : ℕ) → (fill_level side idx size b).cfg ≡ b.cfg
  unfolding fill_level rescan_after rescan_best_bid_from rescan_best_ask_from
  cfg-fill_level side size = ground arith

raised-depth : (s : Side) (i : ℕ) (b : OrderBook) → depth (raise_best s i b) ≡ depth b
unfolding raise_best
raised-depth nobody i b = refl
raised-depth buy i b = refl
raised-depth sell i b = refl

cfg-raise_best : (s : Side) (i : ℕ) (b : OrderBook) → (raise_best s i b).cfg ≡ b.cfg
unfolding raise_best
cfg-raise_best nobody i b = refl
cfg-raise_best buy i b = refl
cfg-raise_best sell i b = refl

module _ (side : Side) (price : ℤ) (size : ℕ) (b : OrderBook) where
  pub set_level-depth : depth (set_level side price size b) ≡ put b.cfg side price size (depth b)
  unfolding set_level put count_applied
  set_level-depth = elim (Option-cases (to_index b.cfg price)) [
    | inl e ↦ rw (e, set_level, put) refl
    | inr (idx, e) ↦ elim (Bool-cases (size == 0)) [
      | inl t ↦ rw (e, t, set_level, put) (fun_ext (clear_level-shown b idx))
      | inr f ↦
          rw (e, f, set_level, put)
            (raised-depth side idx (fill_level side idx size b)
              ∙ fun_ext (fill_level-shown b idx side size))
    ]
  ]

  pub cfg-set_level : (set_level side price size b).cfg ≡ b.cfg
  unfolding set_level count_applied
  cfg-set_level = elim (Option-cases (to_index b.cfg price)) [
    | inl e ↦ rw (e, set_level) refl
    | inr (idx, e) ↦ elim (Bool-cases (size == 0)) [
      | inl t ↦ rw (e, t, set_level) (cfg-clear_level b idx)
      | inr f ↦
          rw (e, f, set_level)
            (cfg-raise_best side idx (fill_level side idx size b) ∙ cfg-fill_level b idx side size)
    ]
  ]

pub observe-depth :
    (b : OrderBook)
    → (depth (observe_event_boundary b) ≡ depth b) × ((observe_event_boundary b).cfg ≡ b.cfg)
unfolding observe_event_boundary
observe-depth b = (refl, refl)

pub reset-depth : (b : OrderBook) → (depth (reset b) ≡ (λ _. none)) × ((reset b).cfg ≡ b.cfg)
unfolding reset
reset-depth b = (refl, refl)
