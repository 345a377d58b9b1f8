-- ===== src/Pipeline/Tests.antt =====
-- A stream of four messages, two of them swapped, through the consumer.
use burst_resilient_feed_han.Base.{
  ℕ, ◌+◌, ◌^◌, ◌≤◌, ◌≡◌, refl, false, none, List, [], ◌∷◌, true, length, arith,
}
use burst_resilient_feed_han.Base.Int.{pos, ◌-ℤ◌}
use burst_resilient_feed_han.Event
use burst_resilient_feed_han.Event.{MarketEvent, EventType, Side, buy, default_event}
use burst_resilient_feed_han.Sequencer.{SequencerConfig}
use burst_resilient_feed_han.Sequencer.Buffer.{find}
use burst_resilient_feed_han.Sequencer.Drain.{Agrees}
use burst_resilient_feed_han.Sequencer.InOrder.{small-NoOverflow}
use burst_resilient_feed_han.OrderBook.Types.{OrderBook, OrderBookConfig}
use burst_resilient_feed_han.OrderBook.Price
use burst_resilient_feed_han.OrderBook.View.{best_bid, level_at}
use burst_resilient_feed_han.OrderBook.Best.{is_crossed, raise_best}
use burst_resilient_feed_han.OrderBook.Pool
use burst_resilient_feed_han.OrderBook.Pool.{alloc, ensure, grow, thread}
use burst_resilient_feed_han.Publisher
use burst_resilient_feed_han.Publisher.{same, on_update, on_update-tracks, Reported, Kept}
use burst_resilient_feed_han.Pipeline.{init, consume}
use burst_resilient_feed_han.OrderBook.Orders
use burst_resilient_feed_han.Base.Word.{inc64}
use mathlib.Core.List.{Perm}
use burst_resilient_feed_han.FileSource.{RawFrame}
use burst_resilient_feed_han.Pipeline.Ingest
use burst_resilient_feed_han.Pipeline.Ingest.{PipelineConfig, ingest}
use burst_resilient_feed_han.Pipeline.GapInjection.{parsed, ingest_complete}
use burst_resilient_feed_han.Pipeline.Consume.{consume_in_order}
use burst_resilient_feed_han.OrderBook.Spec.Apply.{apply_all, change_all}
use burst_resilient_feed_han.OrderBook.Spec.Shows.{Shows}
use burst_resilient_feed_han.OrderBook.Price.{normalise, level_count, to_index}
use burst_resilient_feed_han.Pipeline.Shown.{consume-Shows}

abbrev band : OrderBookConfig
band = record { min_price_ticks = pos 100; max_price_ticks = pos 120; tick = pos 5; pool_chunk = 2 }

abbrev small : SequencerConfig
small = record { start_seq = 1; reorder_capacity = 4 }

abbrev bid_for : ℕ → ℕ → MarketEvent
bid_for ref price = record default_event {
  type = Event.add;
  order_ref = ref;
  side = buy;
  size = 10;
  price_ticks = pos price;
}

abbrev swapped : List (ℕ × MarketEvent)
swapped = (1, bid_for 1 105) ∷ (3, bid_for 3 115) ∷ (2, bid_for 2 110) ∷ (3, bid_for 4 100) ∷ []

consume_in_order_example :
    (ds : List MarketEvent) × Agrees 1 ds swapped
    × (find (1 + length ds) swapped ≡ none)
    × ((consume swapped (init band small)).book ≡ apply_all ds (Price.init band))
consume_in_order_example =
    consume_in_order band small swapped (omega arith)
      (small-NoOverflow small swapped (omega arith) (omega arith))

swapped_levels : level_count (normalise band) ≤ 2 ^ 32
unfolding level_count normalise ◌-ℤ◌
swapped_levels = omega arith

consume-Shows_example :
    (ds : List MarketEvent) × Agrees 1 ds swapped
    × (find (1 + length ds) swapped ≡ none)
    × Shows 0
        (normalise band)
        (consume swapped (init band small)).book
        (change_all (normalise band) ds [])
consume-Shows_example =
    consume-Shows band small swapped (omega arith) (omega arith) swapped_levels
      (omega arith, (omega arith, (omega arith, (omega arith, tt))))
      (small-NoOverflow small swapped (omega arith) (omega arith))

-- A book that has its first bid, and a publisher that has seen it empty.
abbrev bought : OrderBook
bought = Orders.apply (bid_for 7 105) (Price.init band)

bought_moves : (on_update bought Publisher.init).0 ≡ true
unfolding Publisher.init on_update same best_bid level_at is_crossed raise_best Price.init to_index
    normalise Orders.apply Orders.note_crossed Orders.dispatch Orders.on_add Orders.place alloc
    ensure grow thread Pool.init
bought_moves = refl

on_update-tracks_example :
    let (changed, q) = on_update bought Publisher.init in
    let (again, u) = on_update bought q in
    (q.updates ≡ inc64 Publisher.init.updates)
    × Reported bought Publisher.init changed q
    × Kept bought q
    × (again ≡ false)
    × (u.l1_deltas ≡ q.l1_deltas)
on_update-tracks_example = on_update-tracks bought Publisher.init

-- Two system events and a frame that does not parse; the first is held back.
abbrev system_frame : ℕ → RawFrame
system_frame n = record {
  data_ = 83 ∷ 0 ∷ 0 ∷ 0 ∷ 0 ∷ 0 ∷ 0 ∷ 0 ∷ 0 ∷ 0 ∷ n ∷ 79 ∷ [];
  len = 12;
  sequence = n;
}

abbrev frames : List RawFrame
frames = system_frame 1 ∷ record { data_ = 1 ∷ []; len = 1; sequence = 2 } ∷ system_frame 3 ∷ []

abbrev gap : PipelineConfig
gap = record { inject_gap_at = 1; gap_reorder_distance = 2 }

ingest_complete_example : Perm (ingest gap frames Ingest.init) (parsed frames)
ingest_complete_example = ingest_complete gap frames
