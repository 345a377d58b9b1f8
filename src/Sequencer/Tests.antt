-- ===== src/Sequencer/Tests.antt =====
-- Runs of the sequencer on small streams, and its theorems at such inputs.
use burst_resilient_feed_han.Base.{
  ℕ, ◌+◌, ◌<◌, ◌≡◌, ◌≢◌, refl, List, [], ◌∷◌, true, false, not, none, length, arith, map, ◌≤◌,
}
use burst_resilient_feed_han.Base.Word.{inc64, add64, sub64}
use burst_resilient_feed_han.Event.{MarketEvent, default_event}
use burst_resilient_feed_han.Sequencer.{
  Sequencer, SequencerConfig, init, offer, open_gap, hold, pop_ready, settle, release,
  resync_to_snapshot,
}
use burst_resilient_feed_han.Sequencer.Buffer.{ReorderBuffer, find, emplace, erase, is_empty}
use burst_resilient_feed_han.Sequencer.Drain.{
  drain_fuel, drain, react, step, feed, IsSettled, Drained, drain-Drained, Agrees,
}
use burst_resilient_feed_han.Sequencer.Step.{step-IsSettled}
use burst_resilient_feed_han.Sequencer.InOrder.{NoOverflow, feed_in_order, small-NoOverflow}
use burst_resilient_feed_han.Sequencer.NoLoss.{sent, feed_no_loss}
use burst_resilient_feed_han.Sequencer.Recovery.{overflow_resyncs}

abbrev event : ℕ → MarketEvent
event n = record default_event { order_ref = n }

abbrev small : SequencerConfig
small = record { start_seq = 1; reorder_capacity = 4 }

-- 3 arrives early, 2 fills the hole, 1 is repeated, and 5 waits.
abbrev stream : ReorderBuffer
stream = (1, event 1) ∷ (3, event 3) ∷ (2, event 2) ∷ (5, event 5) ∷ []

abbrev holding : Sequencer
holding = record (init small) { expected = 2; stale = true; reorder = (3, event 3) ∷ [] }

abbrev filled : Sequencer
filled = record holding { expected = 3 }

abbrev tight : Sequencer
tight = record holding { cfg = record { start_seq = 1; reorder_capacity = 1 } }

feed-stream : map (λ (e : MarketEvent). e.order_ref) (feed stream (init small)).0 ≡ 1 ∷ 2 ∷ 3 ∷ []
unfolding feed step react drain drain_fuel pop_ready settle release offer open_gap hold init find
    emplace erase inc64 add64 sub64
feed-stream = refl

holding-IsSettled : IsSettled holding
unfolding init find
holding-IsSettled = record {
  distinct = (refl, tt);
  future = omega arith;
  bounded = omega arith;
  flag = refl;
}

drain-Drained_example : let (evs, t) = drain filled in Drained filled evs t
unfolding init find
drain-Drained_example = drain-Drained filled (omega arith) (record {
  distinct = (refl, tt);
  future = omega arith;
  bounded = omega arith;
  flag = λ e. refl;
})

step-IsSettled_example : IsSettled (step 2 (event 2) holding).1
unfolding init
step-IsSettled_example = step-IsSettled 2 (event 2) holding holding-IsSettled (omega arith)

feed_in_order_example :
    let (ds, s) = feed stream (init small) in
    Agrees 1 ds stream
    × (find s.expected stream ≡ none)
    × (s.expected ≡ 1 + length ds)
    × (s.stale ≡ not (is_empty s.reorder))
feed_in_order_example =
    feed_in_order small stream (omega arith)
      (small-NoOverflow small stream (omega arith) (omega arith))

-- 4 has not arrived.
arrived : (j : ℕ) → 1 ≤ j → j < 1 + 3 → find j stream ≢ none
unfolding find
arrived j lo hi e = ground arith

four_missing : find 4 stream ≡ none
unfolding find
four_missing = refl

feed_no_loss_example :
    let (ds, s) = feed stream (init small) in (ds ≡ sent event 1 3) × (s.expected ≡ 4)
feed_no_loss_example =
    feed_no_loss event small stream 3 (omega arith)
      (small-NoOverflow small stream (omega arith) (omega arith)) (refl, (refl, (refl, (refl, tt))))
      arrived four_missing

small-NoOverflow_example : NoOverflow stream (init small)
small-NoOverflow_example = small-NoOverflow small stream (omega arith) (omega arith)

-- 10 and 11 are swapped.
abbrev onward : ReorderBuffer
onward = (11, event 11) ∷ (10, event 10) ∷ []

onward-NoOverflow : NoOverflow onward (step 9 (event 9) tight).1
unfolding step react drain drain_fuel pop_ready settle release offer open_gap hold init find emplace
    erase inc64 add64 sub64 resync_to_snapshot
onward-NoOverflow = ground arith

overflow_resyncs_example :
    let t = (step 9 (event 9) tight).1 in
    let (ds, u) = feed ((9, event 9) ∷ onward) tight in
    (t.reorder ≡ [])
    × (t.stale ≡ false)
    × (t.needs_snapshot ≡ false)
    × (t.stats.reorder_overflow ≡ inc64 tight.stats.reorder_overflow)
    × (t.stats.snapshot_recoveries ≡ inc64 tight.stats.snapshot_recoveries)
    × (es : List MarketEvent) × (ds ≡ event 9 ∷ es)
    × Agrees (9 + 1) es onward
    × (u.expected ≡ 9 + 1 + length es)
    × (find u.expected onward ≡ none)
overflow_resyncs_example =
    overflow_resyncs 9 (event 9) tight onward (omega arith) (omega arith) (omega arith)
      onward-NoOverflow
