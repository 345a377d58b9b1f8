-- ===== src/LiveFeed/Decode.antt =====
-- The producer of apps/live_feed.cpp (the WebSocket callback) and the reading of a snapshot. A
-- parsed JSON message is an argument, its strings of any type `A`. `to_number` is std::stod, `none`
-- where it throws; `round_scaled v scale` is std::llround of the product of the two.
use burst_resilient_feed_han.Base.{
  ℕ, ◌^◌, ◌-◌, Bool, true, false, Option, none, some, List, [], ◌∷◌, ◌++◌, if◌then◌else◌, ltb, ◌&&◌,
  ◌||◌, not,
}
use burst_resilient_feed_han.Base.Int.{ℤ, pos, negsuc, ltb_ℤ, pos_part}
use burst_resilient_feed_han.Event
use burst_resilient_feed_han.Event.{MarketEvent, Side, buy, sell, default_event}
use burst_resilient_feed_han.LiveFeed.{Snapshot}

-- A `depthUpdate` message: each level is an array of strings, the price and the quantity first.
pub record DepthUpdate (A : Type 0) : Type 0 where
  pub first : ℕ
  pub last : ℕ
  pub bids : List (List A)
  pub asks : List (List A)

-- `UINT32_MAX`.
abbrev pub uint32_max : ℕ
uint32_max = 2 ^ 32 - 1

-- `q <= 0` gives 0, and what does not fit gives the largest 32-bit number.
unfoldable pub clamp : ℤ → ℕ
clamp q =
    if ltb_ℤ (pos 0) q then (if ltb uint32_max (pos_part q) then uint32_max else pos_part q) else 0

-- The message without a level, for an event that lists none.
abbrev pub header : ℕ → ℕ → MarketEvent
header first last = record default_event {
  type = Event.l2_event_header;
  order_ref = first;
  match_number = last;
}

module _ {A D : Type 0} (to_number : A → Option D) (round_scaled : D → ℤ → ℤ) where
  unfoldable pub px_to_ticks : A → ℤ → ℤ
  px_to_ticks s scale = elim (to_number s) [ none ↦ negsuc 0 | some v ↦ round_scaled v scale ]

  unfoldable pub scaled_qty : A → ℤ → ℕ
  scaled_qty s scale = elim (to_number s) [ none ↦ 0 | some v ↦ clamp (round_scaled v scale) ]

  -- The lambda `load` of `fetch_snapshot`, on one level of the JSON.
  unfoldable pub load_level : ℤ → ℤ → Side → Bool → List A → Snapshot → Snapshot
  load_level price_scale size_scale side is_bid [] s = s
  load_level price_scale size_scale side is_bid (p ∷ []) s = s
  load_level price_scale size_scale side is_bid (p ∷ (q ∷ _)) s =
      let px = px_to_ticks p price_scale in
      let qty = scaled_qty q size_scale in
      if ltb_ℤ px (pos 0) || not (ltb 0 qty) then s else record s {
        best_bid =
            if is_bid && (ltb_ℤ s.best_bid (pos 0) || ltb_ℤ s.best_bid px) then px else s.best_bid;
        best_ask =
            if not is_bid && (ltb_ℤ s.best_ask (pos 0) || ltb_ℤ px s.best_ask)
            then px
            else s.best_ask;
        levels = s.levels ++ (record { side = side; price_ticks = px; size = qty } ∷ []);
      }

  unfoldable pub load : ℤ → ℤ → Side → Bool → List (List A) → Snapshot → Snapshot
  load price_scale size_scale side is_bid [] s = s
  load price_scale size_scale side is_bid (lvl ∷ lvls) s =
      load price_scale size_scale side is_bid lvls
        (load_level price_scale size_scale side is_bid lvl s)

  -- `fetch_snapshot` after a 200 with a body that has the field `lastUpdateId`.
  unfoldable pub read_snapshot : ℤ → ℤ → ℕ → List (List A) → List (List A) → Snapshot
  read_snapshot price_scale size_scale last_update_id bids asks =
      let s = load price_scale size_scale buy true bids (record {
        ok = false;
        http_status = pos 200;
        last_update_id = last_update_id;
        best_bid = negsuc 0;
        best_ask = negsuc 0;
        levels = [];
      }) in
      record (load price_scale size_scale sell false asks s) { ok = true }

  -- The lambda `push_op`: the message sent for one level, if any.
  unfoldable pub push_op : ℤ → ℤ → ℕ → ℕ → Side → List A → List MarketEvent
  push_op price_scale size_scale first last side [] = []
  push_op price_scale size_scale first last side (p ∷ []) = []
  push_op price_scale size_scale first last side (p ∷ (q ∷ _)) =
      let px = px_to_ticks p price_scale in
      if ltb_ℤ px (pos 0)
      then []
      else record default_event {
        type = Event.l2_set_level;
        side = side;
        price_ticks = px;
        size = scaled_qty q size_scale;
        order_ref = first;
        match_number = last;
      }
        ∷ []

  unfoldable pub push_ops : ℤ → ℤ → ℕ → ℕ → Side → List (List A) → List MarketEvent
  push_ops price_scale size_scale first last side [] = []
  push_ops price_scale size_scale first last side (lvl ∷ lvls) =
      push_op price_scale size_scale first last side lvl
      ++ push_ops price_scale size_scale first last side lvls

  -- The messages sent for a `depthUpdate`, in their order.
  unfoldable pub depth_update : ℤ → ℤ → DepthUpdate A → List MarketEvent
  depth_update price_scale size_scale j = elim j.bids [
    | [] ↦ elim j.asks [
      | [] ↦ header j.first j.last ∷ []
      | lvl ∷ lvls ↦ push_ops price_scale size_scale j.first j.last sell (lvl ∷ lvls)
    ]
    | lvl ∷ lvls ↦
        push_ops price_scale size_scale j.first j.last buy (lvl ∷ lvls)
        ++ push_ops price_scale size_scale j.first j.last sell j.asks
  ]
