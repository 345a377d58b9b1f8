-- ===== src/OrderBook/Price/Laws.antt =====
-- The price band: the constructor's array covers it, and indices and prices are inverse up to the
-- tick.
use native.Mathlib.Nat.{le-div_iff_mul-le, div-mul-le_self, mul-div_cancel}
use burst_resilient_feed_han.Base.{ℕ, ◌*◌, ◌/◌, ◌≤◌, ◌<◌, ◌≡◌, refl, some, arith}
use burst_resilient_feed_han.Base.Int.{ℤ, pos, negsuc, pos_part, ◌+ℤ◌, ◌-ℤ◌, ◌*ℤ◌, ◌≤ℤ◌, -ℤ_parts}
use burst_resilient_feed_han.OrderBook.Types.{OrderBookConfig}
use burst_resilient_feed_han.OrderBook.Price.{normalise, level_count, to_index, to_price}

-- What the constructor makes of any configuration.
pub record IsConfig (c : OrderBookConfig) : Type 0 where
  pub ticked : pos 1 ≤ℤ c.tick
  pub ordered : c.min_price_ticks ≤ℤ c.max_price_ticks

pub normalise-IsConfig : (c : OrderBookConfig) → IsConfig (normalise c)
unfolding normalise
normalise-IsConfig c = ground arith

pub div_mono : (a b t : ℕ) → 0 < t → a ≤ b → a / t ≤ b / t
div_mono a b t h le =
    (le-div_iff_mul-le {x = a / t} {y = b} h).1 (omega (arith, div-mul-le_self a t))

-- Every index that `to_index` answers lies in the array.
pub to_index-lt-level_count :
    (c : OrderBookConfig) (price : ℤ) (i : ℕ)
    → IsConfig c
    → to_index c price ≡ some i
    → i < level_count c
unfolding to_index level_count
to_index-lt-level_count c price i v e =
    let low = c.min_price_ticks in
    ground (
      arith,
      div_mono (pos_part (price -ℤ low)) (pos_part (c.max_price_ticks -ℤ low)) (pos_part c.tick),
      -ℤ_parts price low,
      -ℤ_parts c.max_price_ticks low,
    )

tick_pos : (t : ℤ) → pos 1 ≤ℤ t → t ≡ pos (pos_part t)
tick_pos (pos n) h = refl
tick_pos (negsuc n) h = absurd (omega arith)

-- The offset of the i-th price, with the tick written as a natural number.
to_price-offset :
    (c : OrderBookConfig) (i : ℕ)
    → IsConfig c
    → to_price c i -ℤ c.min_price_ticks ≡ pos (i * pos_part c.tick)
unfolding to_price ◌*ℤ◌ ◌+ℤ◌ ◌-ℤ◌
to_price-offset c i v = ground (arith, tick_pos c.tick v.ticked)

-- For a configuration as the constructor makes it: the price of an index of the array leads back to the
-- index.
pub to_index-to_price :
    (c : OrderBookConfig) (i : ℕ)
    → IsConfig c
    → i < level_count c
    → to_index c (to_price c i) ≡ some i
unfolding to_index level_count
to_index-to_price c i v h =
    let low = c.min_price_ticks in
    let span = pos_part (c.max_price_ticks -ℤ low) in
    let t = pos_part c.tick in
    let fits : i * t ≤ span =
      (le-div_iff_mul-le {x = i} {y = span} (omega (arith, v.ticked))).0 (omega arith) in
    ground (
      arith,
      to_price-offset c i v,
      -ℤ_parts (to_price c i) low,
      -ℤ_parts c.max_price_ticks low,
      mul-div_cancel i {n = t} (omega (arith, v.ticked)),
    )
