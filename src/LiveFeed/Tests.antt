-- ===== src/LiveFeed/Tests.antt =====
-- The live feed's theorems at small streams. A string is a number, and the scale multiplies it.
use burst_resilient_feed_han.Base.{
  ℕ, ◌+◌, ◌*◌, ◌≡◌, refl, true, false, Option, none, some, List, [], ◌∷◌, ◌++◌, ltb, if◌then◌else◌,
  arith,
}
use burst_resilient_feed_han.Base.Int.{ℤ, pos, pos_part, ◌+ℤ◌}
use burst_resilient_feed_han.Base.Word.{inc64}
use burst_resilient_feed_han.Event.{Side, buy, sell}
use burst_resilient_feed_han.OrderBook.Types.{OrderBookConfig}
use burst_resilient_feed_han.OrderBook.Price.{normalise}
use burst_resilient_feed_han.OrderBook.Levels.Shown.{depth}
use burst_resilient_feed_han.LiveFeed.{
  L2Level, Snapshot, Session, seeking, streaming, start_session, on_message, run,
}
use burst_resilient_feed_han.LiveFeed.Decode.{DepthUpdate, px_to_ticks}
use burst_resilient_feed_han.LiveFeed.Bootstrap.{mid_price}
use burst_resilient_feed_han.LiveFeed.Settings.{query_param, catalog_has, listed}
use burst_resilient_feed_han.LiveFeed.Replay.{put_all, level_message, messages}
use burst_resilient_feed_han.LiveFeed.Chain.{IsChain, next_id, fresh}
use burst_resilient_feed_han.LiveFeed.Recovery.{on_message-gap, run-gap_loses_level}
use burst_resilient_feed_han.LiveFeed.Producer.{
  level_of, levels_of, decoded, decoded_all, sent, AllUsable, run-sent,
}

abbrev band : OrderBookConfig
band = record { min_price_ticks = pos 100; max_price_ticks = pos 120; tick = pos 1; pool_chunk = 2 }

abbrev level : Side → ℕ → ℕ → L2Level
level side price size = record { side = side; price_ticks = pos price; size = size }

-- A snapshot with the number 10.
abbrev ten : Snapshot
ten = record {
  ok = true;
  http_status = pos 200;
  last_update_id = 10;
  best_bid = pos 105;
  best_ask = pos 107;
  levels = level buy 105 30 ∷ level sell 107 20 ∷ [];
}

abbrev to_number : ℕ → Option ℕ
to_number n = some n

abbrev round_scaled : ℕ → ℤ → ℤ
round_scaled n scale = pos (n * pos_part scale)

-- The updates 8 to 9, 10 to 12 and 13: the first is older than the snapshot, the last lists no level.
abbrev updates : List (DepthUpdate ℕ)
updates =
    record { first = 8; last = 9; bids = (105 ∷ 7 ∷ []) ∷ []; asks = [] }
    ∷ record { first = 10; last = 12; bids = (105 ∷ 0 ∷ []) ∷ []; asks = (108 ∷ 4 ∷ []) ∷ [] }
    ∷ record { first = 13; last = 13; bids = []; asks = [] }
    ∷ []

updates_usable : AllUsable to_number round_scaled (pos 1) (pos 1) updates
unfolding decoded levels_of level_of px_to_ticks
updates_usable =
    (λ e. absurd (ground arith), ((λ e. absurd (ground arith)), ((λ e. (refl, refl)), tt)))

updates-IsChain : IsChain 8 (decoded_all to_number round_scaled (pos 1) (pos 1) updates)
unfolding decoded_all decoded
updates-IsChain = (
  refl,
  omega arith,
  omega arith,
  (refl, omega arith, omega arith, (refl, omega arith, omega arith, tt)),
)

run-sent_example :
    let ds = decoded_all to_number round_scaled (pos 1) (pos 1) updates in
    let d =
      run
        (λ _. ten)
        (sent to_number round_scaled (pos 1) (pos 1) updates)
        (start_session band ten) in
    (depth d.book ≡ put_all (normalise band) (ten.levels ++ fresh 10 ds) (λ _. none))
    × (d.gaps ≡ 0)
    × (d.resyncs ≡ 0)
    × (d.mode ≡ (if ltb (10 + 1) (next_id 8 ds) then streaming else seeking))
run-sent_example =
    run-sent to_number round_scaled (pos 1) (pos 1) (λ _. ten) band ten 8 updates updates_usable
      (omega arith) (omega arith) updates-IsChain

-- A session that streams, up to the number 5.
abbrev at_five : Session
at_five = record (start_session band ten) {
  mode = streaming;
  prev_u = 5;
  have_event = true;
  cur_U = 4;
}

on_message-gap_example :
    let d = on_message (λ _. ten) (level_message 9 12 (level buy 106 1)) at_five in
    (d.gaps ≡ inc64 at_five.gaps)
    × (d.resyncs ≡ inc64 at_five.resyncs)
    × (d.have_event ≡ false)
    × (depth d.book ≡ put_all at_five.book.cfg ten.levels (λ _. none))
    × (d.mode ≡ seeking)
    × (d.last_id ≡ 10)
on_message-gap_example =
    on_message-gap (λ _. ten) 9 12 (level buy 106 1) at_five refl refl (omega arith) (omega arith)
      (omega arith)

run-gap_loses_level_example :
    let d =
      run
        (λ _. ten)
        (messages
          (record { first = 9; last = 12; levels = level buy 106 1 ∷ (level sell 108 2 ∷ []) }))
        at_five in
    (d.mode ≡ streaming)
    × (d.prev_u ≡ 12)
    × (depth d.book ≡ put_all at_five.book.cfg (ten.levels ++ (level sell 108 2 ∷ [])) (λ _. none))
run-gap_loses_level_example =
    run-gap_loses_level (λ _. ten) 9 12 (level buy 106 1) at_five refl refl (omega arith)
      (omega arith) (omega arith) (level sell 108 2) [] refl (omega arith) (omega arith)
      (omega arith)

switched_symbol : query_param "/symbol?set=ETHUSDT&t=1" "set" ≡ "ETHUSDT"
unfolding query_param
switched_symbol = refl

no_query : query_param "/snapshot.json" "market" ≡ ""
unfolding query_param
no_query = refl

ether_listed : catalog_has "ETHUSDT" ≡ true
unfolding catalog_has listed
ether_listed = refl

-- The middle of the snapshot's prices.
bootstrap_mid : mid_price ten ≡ pos 106
unfolding mid_price ◌+ℤ◌
bootstrap_mid = refl
