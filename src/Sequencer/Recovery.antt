-- ===== src/Sequencer/Recovery.antt =====
-- A message that finds the reorder buffer full, and the stream after it.
use burst_resilient_feed_han.Base.{
  ℕ, ◌+◌, ◌^◌, ◌≤◌, ◌<◌, ◌≡◌, refl, List, [], ◌∷◌, false, none, length, arith,
}
use burst_resilient_feed_han.Base.Word.{inc64, inc64_exact}
use burst_resilient_feed_han.Event.{MarketEvent}
use burst_resilient_feed_han.Sequencer.{Sequencer, offer, open_gap, hold, resync_to_snapshot}
use burst_resilient_feed_han.Sequencer.Drain.{step, react, feed, Agrees}
use burst_resilient_feed_han.Sequencer.Buffer.{find, find_below}
use burst_resilient_feed_han.Sequencer.InOrder.{NoOverflow, fresh-Delivered, feed-Delivered}

-- What one message does that finds the buffer full.
pub record Resynced (seq : ℕ) (ev : MarketEvent) (s : Sequencer) (ds : List MarketEvent)
    (t : Sequencer) : Type 0 where
  pub alone : ds ≡ ev ∷ []
  pub expected_next : t.expected ≡ inc64 seq
  pub emptied : t.reorder ≡ []
  pub fresh : t.stale ≡ false
  pub answered : t.needs_snapshot ≡ false
  pub overflowed : t.stats.reorder_overflow ≡ inc64 s.stats.reorder_overflow
  pub recovered : t.stats.snapshot_recoveries ≡ inc64 s.stats.snapshot_recoveries

pub step-Resynced :
    (seq : ℕ) (ev : MarketEvent) (s : Sequencer)
    → s.expected < seq
    → s.cfg.reorder_capacity ≤ length s.reorder
    → let (ds, t) = step seq ev s in Resynced seq ev s ds t
unfolding step react offer open_gap hold resync_to_snapshot
step-Resynced seq ev s ahead full = ground arith

module _ (seq : ℕ) (ev : MarketEvent) (s : Sequencer) (xs : List (ℕ × MarketEvent)) where
  -- When a message of the future, numbered `seq`, finds `reorder_capacity` or more events held: its
  -- event goes to the book at once, what was held is given up, one overflow and one recovery are
  -- counted, and the stream is neither stale nor in need of a snapshot. If the messages after it, in any order and with
  -- repeats, never overflow the buffer (nor the 64-bit counter), what follows that event are the first
  -- arrivals of `seq + 1`, `seq + 2` and so on, up to the first number that is not among them: that
  -- one is expected next.
  pub overflow_resyncs :
      s.expected < seq
      → s.cfg.reorder_capacity ≤ length s.reorder
      → seq + length xs + 3 < 2 ^ 64
      → NoOverflow xs (step seq ev s).1
      → let t = (step seq ev s).1 in
        let (ds, u) = feed ((seq, ev) ∷ xs) s in
        (t.reorder ≡ [])
        × (t.stale ≡ false)
        × (t.needs_snapshot ≡ false)
        × (t.stats.reorder_overflow ≡ inc64 s.stats.reorder_overflow)
        × (t.stats.snapshot_recoveries ≡ inc64 s.stats.snapshot_recoveries)
        × (es : List MarketEvent) × (ds ≡ ev ∷ es)
        × Agrees (seq + 1) es xs
        × (u.expected ≡ seq + 1 + length es)
        × (find u.expected xs ≡ none)
  unfolding feed
  overflow_resyncs ahead full room ok =
      let t = (step seq ev s).1 in
      let (es, u) = feed xs t in
      let r = step-Resynced seq ev s ahead full in
      let next : t.expected ≡ seq + 1 = ground (arith, r.expected_next, inc64_exact seq) in
      let v =
        feed-Delivered t.expected xs [] [] t (omega (arith, next)) ok
          (fresh-Delivered t r.emptied r.fresh) in
      (
        r.emptied,
        r.fresh,
        r.answered,
        r.overflowed,
        r.recovered,
        es,
        rw (r.alone) refl,
        rw next at (v.agrees),
        omega (arith, v.counted, next),
        ground (
          arith,
          v.pending u.expected,
          find_below (u.expected + 1) u.expected u.reorder v.settled.future,
        ),
      )
