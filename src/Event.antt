-- ===== src/Event.antt =====
-- include/feedhandler/market_event.hpp: the decoded event that every component passes on.
use burst_resilient_feed_han.Base.{ℕ, ◌≡◌, List, [], ◌∷◌, Bool, true, false, arith, ◌≢◌}
use burst_resilient_feed_han.Base.Int.{ℤ, pos}

-- `enum class EventType`.
pub data EventType : Type 0 where
  unknown add cancel delete execute execute_with_price replace trade system_event : EventType
  l2_set_level l2_event_header : EventType

-- `enum class Side`; `Side::None` is `nobody`.
pub data Side : Type 0 where
  nobody buy sell : Side

-- `a == b` on sides.
abbrev pub side_eq : Side → Side → Bool
side_eq nobody nobody = true
side_eq buy buy = true
side_eq sell sell = true
side_eq _ _ = false

pub side_eq_sound : (a b : Side) → side_eq a b ≡ true → a ≡ b
side_eq_sound a b h = ground arith

pub side_eq-ne : {a b : Side} → side_eq a b ≡ false → a ≢ b
side_eq-ne {a} {b} h e = absurd (ne a b h e)
  where
    ne : (x y : Side) → side_eq x y ≡ false → x ≡ y → ⊥
    ne nobody nobody f p = cc
    ne buy buy f p = cc
    ne sell sell f p = cc
    ne _ _ f p = cc

pub record MarketEvent : Type 0 where
  pub timestamp_ns : ℕ
  pub order_ref : ℕ
  pub new_order_ref : ℕ
  pub match_number : ℕ
  pub price_ticks : ℤ
  pub size : ℕ
  pub stock_locate : ℕ
  pub type : EventType
  pub side : Side
  pub symbol : List ℕ

-- `MarketEvent{}`.
abbrev pub default_event : MarketEvent
default_event = record {
  timestamp_ns = 0;
  order_ref = 0;
  new_order_ref = 0;
  match_number = 0;
  price_ticks = pos 0;
  size = 0;
  stock_locate = 0;
  type = unknown;
  side = nobody;
  symbol = 0 ∷ 0 ∷ 0 ∷ 0 ∷ 0 ∷ 0 ∷ 0 ∷ 0 ∷ [];
}
