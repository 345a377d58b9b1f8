-- ===== src/LiveFeed/Producer.antt =====
-- What the producer sends for a `depthUpdate` is what the consumer's theorems speak of.
use mathlib.Core.List.{map-append}
use burst_resilient_feed_han.Base.{
  ℕ, ◌+◌, ◌^◌, ◌<◌, ◌≤◌, ◌≡◌, ◌≢◌, refl, sym, ◌∙◌, Option, none, List, [], ◌∷◌, ◌++◌, map, ltb,
  if◌then◌else◌, arith, inl, inr, Bool-cases,
}
use burst_resilient_feed_han.Base.Int.{ℤ, pos, ltb_ℤ}
use burst_resilient_feed_han.Event.{MarketEvent, Side, buy, sell}
use burst_resilient_feed_han.OrderBook.Types.{OrderBookConfig}
use burst_resilient_feed_han.OrderBook.Price.{normalise}
use burst_resilient_feed_han.OrderBook.Levels.Shown.{depth}
use burst_resilient_feed_han.LiveFeed.{L2Level, Snapshot, seeking, streaming, start_session, run}
use burst_resilient_feed_han.LiveFeed.Decode.{
  DepthUpdate, px_to_ticks, scaled_qty, push_op, push_ops, depth_update,
}
use burst_resilient_feed_han.LiveFeed.Replay.{put_all, Diff, level_message, messages}
use burst_resilient_feed_han.LiveFeed.Chain.{IsChain, next_id, stream, fresh, run_chain-depth}

module _ {A D : Type 0} (to_number : A → Option D) (round_scaled : D → ℤ → ℤ)
    (price_scale size_scale : ℤ) where
  -- The changes that a list of JSON levels asks for: those with a price and a quantity, and no
  -- negative price.
  unfoldable pub level_of : Side → List A → List L2Level
  level_of side [] = []
  level_of side (p ∷ []) = []
  level_of side (p ∷ (q ∷ _)) =
      let px = px_to_ticks to_number round_scaled p price_scale in
      if ltb_ℤ px (pos 0)
      then []
      else record {
        side = side;
        price_ticks = px;
        size = scaled_qty to_number round_scaled q size_scale;
      }
        ∷ []

  unfoldable pub levels_of : Side → List (List A) → List L2Level
  levels_of side [] = []
  levels_of side (lvl ∷ lvls) = level_of side lvl ++ levels_of side lvls

  unfoldable pub decoded : DepthUpdate A → Diff
  decoded j = record {
    first = j.first;
    last = j.last;
    levels = levels_of buy j.bids ++ levels_of sell j.asks;
  }

  unfoldable pub decoded_all : List (DepthUpdate A) → List Diff
  decoded_all [] = []
  decoded_all (j ∷ js) = decoded j ∷ decoded_all js

  -- What the callback sends for one update after the other.
  unfoldable pub sent : List (DepthUpdate A) → List MarketEvent
  sent [] = []
  sent (j ∷ js) = depth_update to_number round_scaled price_scale size_scale j ++ sent js

  -- An update that lists levels lists one that can be used.
  abbrev pub IsUsable : DepthUpdate A → Type 0
  IsUsable j = (decoded j).levels ≡ [] → (j.bids ≡ []) × (j.asks ≡ [])

  abbrev pub AllUsable : List (DepthUpdate A) → Type 0
  AllUsable [] = Unit {0}
  AllUsable (j ∷ js) = IsUsable j × AllUsable js

  module _ (first last : ℕ) (side : Side) where
    push_op-messages :
        (lvl : List A)
        → push_op to_number round_scaled price_scale size_scale first last side lvl
          ≡ map (level_message first last) (level_of side lvl)
    unfolding push_op level_of
    push_op-messages [] = refl
    push_op-messages (p ∷ []) = refl
    push_op-messages (p ∷ (q ∷ _)) =
        elim (Bool-cases (ltb_ℤ (px_to_ticks to_number round_scaled p price_scale) (pos 0))) [
          | inl t ↦ rw t refl
          | inr f ↦ rw f refl
        ]

    push_ops-messages :
        (lvls : List (List A))
        → push_ops to_number round_scaled price_scale size_scale first last side lvls
          ≡ map (level_message first last) (levels_of side lvls)
    unfolding push_ops levels_of
    push_ops-messages [] = refl
    push_ops-messages (lvl ∷ lvls) =
        rw (push_op-messages lvl, push_ops-messages lvls)
          (sym (map-append (level_message first last) (level_of side lvl) (levels_of side lvls)))

  messages_some :
      (first last : ℕ) (lvs : List L2Level)
      → lvs ≢ []
      → map (level_message first last) lvs
        ≡ messages (record { first = first; last = last; levels = lvs })
  unfolding messages
  messages_some first last [] h = absurd (h refl)
  messages_some first last (lv ∷ lvs) h = refl

  -- For an update that lists no level, or one that can be used: the messages sent are those of the
  -- decoded event.
  depth_update-messages :
      (j : DepthUpdate A)
      → IsUsable j
      → depth_update to_number round_scaled price_scale size_scale j ≡ messages (decoded j)
  unfolding depth_update decoded messages levels_of
  depth_update-messages j h = go j.bids j.asks h
    where
      go :
          (bids asks : List (List A))
          → (levels_of buy bids ++ levels_of sell asks ≡ [] → (bids ≡ []) × (asks ≡ []))
          → depth_update to_number round_scaled price_scale size_scale
              (record { first = j.first; last = j.last; bids = bids; asks = asks })
            ≡ messages (record {
              first = j.first;
              last = j.last;
              levels = levels_of buy bids ++ levels_of sell asks;
            })
      go [] [] h = refl
      go [] (lvl ∷ lvls) h =
          push_ops-messages j.first j.last sell (lvl ∷ lvls)
          ∙ messages_some j.first j.last (levels_of sell (lvl ∷ lvls))
              (λ e. ground (arith, (h e).1))
      go (lvl ∷ lvls) asks h =
          let xs = levels_of buy (lvl ∷ lvls) in
          let ys = levels_of sell asks in
          rw
            (
              push_ops-messages j.first j.last buy (lvl ∷ lvls),
              push_ops-messages j.first j.last sell asks,
            )
            (sym (map-append (level_message j.first j.last) xs ys))
          ∙ messages_some j.first j.last (xs ++ ys) (λ e. ground (arith, (h e).0))

  sent-stream : (js : List (DepthUpdate A)) → AllUsable js → sent js ≡ stream (decoded_all js)
  unfolding sent stream decoded_all
  sent-stream [] h = refl
  sent-stream (j ∷ js) h = rw (depth_update-messages j h.0, sent-stream js h.1) refl

  -- The producer and the consumer together, when all that is sent arrives in order, for depth
  -- updates that list no level or one that can be used, and whose update ids follow on each other
  -- from a number `k` that the snapshot's number reaches (`k ≤ L + 1`), below 2^64: whatever later
  -- snapshots would hold, the session asks for none and counts no gap. Each level shows what the
  -- snapshot's levels and then the changes of the updates that are newer than the snapshot, in
  -- their order, leave there, a later change replacing an earlier one; and the session is streaming
  -- exactly if such an update has come.
  pub run-sent :
      (fetch : ℕ → Snapshot) (bc : OrderBookConfig) (s0 : Snapshot) (k : ℕ)
      (js : List (DepthUpdate A))
      → AllUsable js
      → k ≤ s0.last_update_id + 1
      → s0.last_update_id + 1 < 2 ^ 64
      → IsChain k (decoded_all js)
      → let ds = decoded_all js in
        let d = run fetch (sent js) (start_session bc s0) in
        (depth d.book
          ≡ put_all (normalise bc) (s0.levels ++ fresh s0.last_update_id ds) (λ _. none))
        × (d.gaps ≡ 0)
        × (d.resyncs ≡ 0)
        × (d.mode ≡ (if ltb (s0.last_update_id + 1) (next_id k ds) then streaming else seeking))
  run-sent fetch bc s0 k js u h small chain =
      rw (sent-stream js u) (run_chain-depth fetch bc s0 k (decoded_all js) h small chain)
