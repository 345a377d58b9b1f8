-- ===== src/Sequencer/InOrder.antt =====
-- A whole stream through `handle`: what goes to the book is in order, each number once.
use mathlib.Core.List.{append-nil, append_assoc}
use burst_resilient_feed_han.Base.{
  ℕ, ◌+◌, ◌^◌, ◌≤◌, ◌<◌, ◌≡◌, ◌≢◌, refl, List, [], ◌∷◌, ◌++◌, false, not, none, length, arith,
  length-append,
}
use burst_resilient_feed_han.Event.{MarketEvent}
use burst_resilient_feed_han.Sequencer.{
  Sequencer, SequencerConfig, overflow, offer, init, open_gap, hold,
}
use burst_resilient_feed_han.Sequencer.Drain.{step, step-cfg, feed, Agrees}
use burst_resilient_feed_han.Sequencer.Buffer.{ReorderBuffer, is_empty, find, find_below}
use burst_resilient_feed_han.Sequencer.Delivery.{Delivered, step-Delivered}

-- No message of the stream finds the reorder buffer full.
abbrev pub NoOverflow : ReorderBuffer → Sequencer → Type 0
NoOverflow [] s = Unit {0}
NoOverflow ((seq, ev) ∷ xs) s = ((offer seq ev s).0 ≢ overflow) × NoOverflow xs (step seq ev s).1

pub feed-Delivered :
    (start : ℕ) (xs ps : ReorderBuffer) (ds : List MarketEvent) (s : Sequencer)
    → start + length ps + length xs + 2 < 2 ^ 64
    → NoOverflow xs s
    → Delivered start ps ds s
    → let (es, u) = feed xs s in Delivered start (ps ++ xs) (ds ++ es) u
unfolding feed
feed-Delivered start [] ps ds s h n v = rw (append-nil, append-nil) v
feed-Delivered start ((seq, ev) ∷ xs) ps ds s h n v =
    let (es, t) = step seq ev s in
    let w = step-Delivered start ps ds s v seq ev (omega arith) n.0 in
    let z =
      feed-Delivered start xs (ps ++ ((seq, ev) ∷ [])) (ds ++ es) t
        (omega (arith, length-append ps ((seq, ev) ∷ []))) n.1 w in
    rw (append_assoc, append_assoc) at z

-- Where nothing is held, the delivery of a stream starts from the number expected.
pub fresh-Delivered :
    (s : Sequencer) → s.reorder ≡ [] → s.stale ≡ false → Delivered s.expected [] [] s
unfolding find
fresh-Delivered s e f = record {
  settled = record {
    distinct = rw e tt;
    future = rw e tt;
    bounded = rw e (omega arith);
    flag = rw (e, f) refl;
  };
  counted = omega arith;
  agrees = tt;
  pending = λ k h. rw e refl;
  room = rw e (omega arith);
}

init-Delivered : (cfg : SequencerConfig) → Delivered cfg.start_seq [] [] (init cfg)
unfolding init
init-Delivered cfg = fresh-Delivered (init cfg) refl refl

offer-ne-overflow :
    (seq : ℕ) (ev : MarketEvent) (s : Sequencer)
    → length s.reorder < s.cfg.reorder_capacity
    → (offer seq ev s).0 ≢ overflow
unfolding offer open_gap hold
offer-ne-overflow seq ev s h = ground arith

fits-NoOverflow :
    (start : ℕ) (xs ps : ReorderBuffer) (ds : List MarketEvent) (s : Sequencer)
    → start + length ps + length xs + 2 < 2 ^ 64
    → length ps + length xs ≤ s.cfg.reorder_capacity
    → Delivered start ps ds s
    → NoOverflow xs s
fits-NoOverflow start [] ps ds s h c v = tt
fits-NoOverflow start ((seq, ev) ∷ xs) ps ds s h c v =
    let ne = offer-ne-overflow seq ev s (omega (arith, v.room)) in
    let (es, t) = step seq ev s in
    let w = step-Delivered start ps ds s v seq ev (omega arith) ne in
    let longer = length-append ps ((seq, ev) ∷ []) in
    (
      ne,
      fits-NoOverflow start xs (ps ++ ((seq, ev) ∷ [])) (ds ++ es) t (omega (arith, longer))
          (rw (step-cfg seq ev s) (omega (arith, longer))) w,
    )

module _ (cfg : SequencerConfig) (xs : List (ℕ × MarketEvent)) where
  stream_end :
      cfg.start_seq + length xs + 2 < 2 ^ 64
      → NoOverflow xs (init cfg)
      → let (ds, s) = feed xs (init cfg) in Delivered cfg.start_seq xs ds s
  stream_end h n =
      feed-Delivered cfg.start_seq xs [] [] (init cfg) (omega arith) n (init-Delivered cfg)

  -- No more events than messages.
  pub length-feed :
      cfg.start_seq + length xs + 2 < 2 ^ 64
      → NoOverflow xs (init cfg)
      → length (feed xs (init cfg)).0 ≤ length xs
  length-feed h n = omega (arith, (stream_end h n).room)

  -- Over a stream of numbered messages in any order, with repeats, that never overflows the reorder
  -- buffer (nor the 64-bit counter), the events delivered are the first arrivals of `start_seq`,
  -- `start_seq + 1` and so on, up to the first number that has not arrived: that one is expected next,
  -- and the stream is stale exactly if the buffer holds something.
  pub feed_in_order :
      cfg.start_seq + length xs + 2 < 2 ^ 64
      → NoOverflow xs (init cfg)
      → let (ds, s) = feed xs (init cfg) in
        Agrees cfg.start_seq ds xs
        × (find s.expected xs ≡ none)
        × (s.expected ≡ cfg.start_seq + length ds)
        × (s.stale ≡ not (is_empty s.reorder))
  feed_in_order h n =
      let v = stream_end h n in
      let (ds, s) = feed xs (init cfg) in
      (
        v.agrees,
        ground (
          arith,
          v.pending s.expected,
          find_below (s.expected + 1) s.expected s.reorder v.settled.future,
        ),
        v.counted,
        v.settled.flag,
      )

  -- A stream of at most `reorder_capacity` messages, too few for the 64-bit counter to wrap, never
  -- overflows the reorder buffer.
  pub small-NoOverflow :
      cfg.start_seq + length xs + 2 < 2 ^ 64
      → length xs ≤ cfg.reorder_capacity
      → NoOverflow xs (init cfg)
  unfolding init
  small-NoOverflow h c =
      fits-NoOverflow cfg.start_seq xs [] [] (init cfg) (omega arith) (omega arith)
        (init-Delivered cfg)
