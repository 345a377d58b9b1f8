-- ===== src/OrderBook/Types.antt =====
-- The data of include/feedhandler/order_book.hpp. A pointer to an Order is an address, `none` for
-- nullptr; the nodes that the pool's chunks hold are a function of the address. The vector
-- `levels_` is a function of the index, of which those below `num_levels` are the vector's. The
-- index -1 of an empty side is `none`.
use burst_resilient_feed_han.Base.{
  ℕ, Bool, false, Option, none, ◌==◌, if◌then◌else◌, ◌≡◌, ◌≢◌, arith,
}
use burst_resilient_feed_han.Base.Int.{ℤ, pos}
use burst_resilient_feed_han.Event.{Side, nobody}

pub record Order : Type 0 where
  pub order_ref : ℕ
  pub price_ticks : ℤ
  pub size : ℕ
  pub level_idx : ℕ
  pub side : Side
  pub prev : Option ℕ
  pub next : Option ℕ

-- A node as `make_unique<Order[]>` leaves it.
abbrev pub blank_order : Order
blank_order = record {
  order_ref = 0;
  price_ticks = pos 0;
  size = 0;
  level_idx = 0;
  side = nobody;
  prev = none;
  next = none;
}

pub record PriceLevel : Type 0 where
  pub aggregate_size : ℕ
  pub order_count : ℕ
  pub side : Side
  pub head : Option ℕ
  pub tail : Option ℕ

-- `PriceLevel{}`.
abbrev pub empty_level : PriceLevel
empty_level = record {
  aggregate_size = 0;
  order_count = 0;
  side = nobody;
  head = none;
  tail = none;
}

pub record BookLevel : Type 0 where
  pub price_ticks : ℤ
  pub aggregate_size : ℕ
  pub order_count : ℕ
  pub valid : Bool

-- `BookLevel{}`, the answer for an empty side.
abbrev pub no_level : BookLevel
no_level = record { price_ticks = pos 0; aggregate_size = 0; order_count = 0; valid = false }

pub record OrderBookConfig : Type 0 where
  pub min_price_ticks : ℤ
  pub max_price_ticks : ℤ
  pub tick : ℤ
  pub pool_chunk : ℕ

pub record OrderBookStats : Type 0 where
  pub applied : ℕ
  pub adds : ℕ
  pub cancels : ℕ
  pub deletes : ℕ
  pub executes : ℕ
  pub replaces : ℕ
  pub trades : ℕ
  pub rejected_out_of_band : ℕ
  pub unknown_ref : ℕ
  pub crossed_observed : ℕ

abbrev pub no_stats : OrderBookStats
no_stats = record {
  applied = 0;
  adds = 0;
  cancels = 0;
  deletes = 0;
  executes = 0;
  replaces = 0;
  trades = 0;
  rejected_out_of_band = 0;
  unknown_ref = 0;
  crossed_observed = 0;
}

pub record OrderPool : Type 0 where
  pub chunk : ℕ
  pub chunks : ℕ
  pub free_head : Option ℕ
  pub node : ℕ → Order

pub record OrderBook : Type 0 where
  pub cfg : OrderBookConfig
  pub num_levels : ℕ
  pub levels : ℕ → PriceLevel
  pub index : ℕ → Option ℕ
  pub pool : OrderPool
  pub best_bid_idx : Option ℕ
  pub best_ask_idx : Option ℕ
  pub live_orders : ℕ
  pub stats : OrderBookStats
  pub crossed_at_last_boundary : Bool

-- A write to one place of an array, of the memory or of a map.
abbrev pub update {ℓ} : {A : Type ℓ} → (ℕ → A) → ℕ → A → ℕ → A
update f i v j = if i == j then v else f j

pub update_self {ℓ} : {A : Type ℓ} (f : ℕ → A) (i : ℕ) (v : A) → update f i v i ≡ v
update_self f i v = ground arith

pub update-ne {ℓ} : {A : Type ℓ} (f : ℕ → A) (i j : ℕ) (v : A) → j ≢ i → update f i v j ≡ f j
update-ne f i j v ne = ground arith
