-- ===== src/Sequencer/Drain.antt =====
-- The consumer's use of the sequencer, as in `handle` of src/pipeline.cpp: offer an event, then pop
-- what has become contiguous until `pop_ready` returns false; resynchronise on an overflow.
use burst_resilient_feed_han.Base.{
  ℕ, zero, suc, ◌+◌, ◌^◌, ◌≤◌, ◌<◌, ◌≡◌, refl, List, [], ◌∷◌, ◌++◌, true, false, not, none, some,
  length, arith, ◌∙◌, inl, inr, Option-cases, Bool-cases,
}
use burst_resilient_feed_han.Base.Word.{inc64, inc64_exact}
use burst_resilient_feed_han.Event.{MarketEvent}
use burst_resilient_feed_han.Sequencer.{
  Sequencer, Disposition, apply, drop, buffered, overflow, offer, pop_ready, settle, release,
  resync_to_snapshot,
}
use burst_resilient_feed_han.Sequencer.Buffer.{
  ReorderBuffer, is_empty, find, erase, KeysFrom, Distinct, erase-KeysFrom, erase-Distinct,
  KeysFrom-suc, find-erase, length-erase, find-is_empty,
}

-- `while (seq.pop_ready(r)) apply_ev(r);`: the events that go to the book, and the sequencer after.
unfoldable pub drain_fuel : ℕ → Sequencer → List MarketEvent × Sequencer
drain_fuel zero s = ([], s)
drain_fuel (suc fuel) s =
    let (out, s') = pop_ready s in
    elim out [ none ↦ ([], s') | some ev ↦ let (evs, s'') = drain_fuel fuel s' in (ev ∷ evs, s'') ]

-- Each round takes an entry out of the buffer: one round more than it has entries is enough.
unfoldable pub drain : Sequencer → List MarketEvent × Sequencer
drain s = drain_fuel (suc (length s.reorder)) s

-- What `handle` does after `offer`: the events that it applies to the book, in order.
unfoldable pub react : ℕ → MarketEvent → Disposition → Sequencer → List MarketEvent × Sequencer
react seq ev apply s = let (evs, t) = drain s in (ev ∷ evs, t)
react seq ev overflow s = (ev ∷ [], resync_to_snapshot seq s)
react seq ev drop s = ([], s)
react seq ev buffered s = ([], s)

-- One message.
unfoldable pub step : ℕ → MarketEvent → Sequencer → List MarketEvent × Sequencer
step seq ev s = let (d, t) = offer seq ev s in react seq ev d t

-- A stream of messages.
unfoldable pub feed : List (ℕ × MarketEvent) → Sequencer → List MarketEvent × Sequencer
feed [] s = ([], s)
feed ((seq, ev) ∷ xs) s = let (ds, t) = step seq ev s in let (es, u) = feed xs t in (ds ++ es, u)

-- Between two calls of `handle`: the buffer holds distinct future numbers, at most as many as
-- configured, and the stream is stale exactly while it holds any.
pub record IsSettled (s : Sequencer) : Type 0 where
  pub distinct : Distinct s.reorder
  pub future : KeysFrom (s.expected + 1) s.reorder
  pub bounded : length s.reorder ≤ s.cfg.reorder_capacity
  pub flag : s.stale ≡ not (is_empty s.reorder)

-- Within `handle`, while the drain runs: the expected number itself may be in the buffer.
pub record IsDraining (s : Sequencer) : Type 0 where
  pub distinct : Distinct s.reorder
  pub future : KeysFrom s.expected s.reorder
  pub bounded : length s.reorder ≤ s.cfg.reorder_capacity
  pub flag : is_empty s.reorder ≡ false → s.stale ≡ true

-- The events are those that the list of numbered events has first for `e`, `e + 1` and so on.
abbrev pub Agrees : ℕ → List MarketEvent → ReorderBuffer → Type 0
Agrees e [] m = Unit {0}
Agrees e (d ∷ ds) m = (find e m ≡ some d) × Agrees (e + 1) ds m

-- What one run of the drain loop does.
pub record Drained (s : Sequencer) (evs : List MarketEvent) (t : Sequencer) : Type 0 where
  pub settled : IsSettled t
  pub advanced : t.expected ≡ s.expected + length evs
  pub released : length t.reorder + length evs ≡ length s.reorder
  pub in_order : Agrees s.expected evs s.reorder
  pub kept : (k : ℕ) → t.expected ≤ k → find k t.reorder ≡ find k s.reorder
  pub configured : t.cfg ≡ s.cfg

Agrees-erase :
    (e k : ℕ) (ds : List MarketEvent) (m : ReorderBuffer)
    → Distinct m
    → k < e
    → Agrees e ds (erase k m)
    → Agrees e ds m
Agrees-erase e k [] m d h a = tt
Agrees-erase e k (x ∷ ds) m d h a =
    (ground (arith, find-erase k e m d), Agrees-erase (e + 1) k ds m d (omega arith) a.1)

drain_fuel-none :
    (fuel : ℕ) (s : Sequencer)
    → find s.expected s.reorder ≡ none
    → drain_fuel (suc fuel) s ≡ ([], settle s)
unfolding drain_fuel pop_ready
drain_fuel-none fuel s e = ground arith

drain_fuel-some :
    (fuel : ℕ) (s : Sequencer) (ev : MarketEvent)
    → find s.expected s.reorder ≡ some ev
    → let (evs, t) = drain_fuel fuel (release s) in drain_fuel (suc fuel) s ≡ (ev ∷ evs, t)
unfolding drain_fuel pop_ready
drain_fuel-some fuel s ev e = ground arith

settle-Drained :
    (s : Sequencer) → IsDraining s → find s.expected s.reorder ≡ none → Drained s [] (settle s)
unfolding settle
settle-Drained s v e =
    let future = KeysFrom-suc s.expected s.reorder v.future e in
    elim (Bool-cases (is_empty s.reorder)) [
      | inl empty ↦ rw empty (record {
        settled = record {
          distinct = v.distinct;
          future = future;
          bounded = v.bounded;
          flag = rw empty;
        };
        advanced = omega arith;
        released = omega arith;
        in_order = tt;
        kept = λ k h. refl;
        configured = refl;
      })
      | inr held ↦ rw held (record {
        settled = record {
          distinct = v.distinct;
          future = future;
          bounded = v.bounded;
          flag = ground (arith, v.flag);
        };
        advanced = omega arith;
        released = omega arith;
        in_order = tt;
        kept = λ k h. refl;
        configured = refl;
      })
    ]

-- What `release` leaves, with the counter not wrapping.
record Released (s t : Sequencer) : Type 0 where
  draining : IsDraining t
  next : t.expected ≡ s.expected + 1
  rest : t.reorder ≡ erase s.expected s.reorder
  configured : t.cfg ≡ s.cfg

release-Released :
    (s : Sequencer) (ev : MarketEvent)
    → IsDraining s
    → s.expected + 1 < 2 ^ 64
    → find s.expected s.reorder ≡ some ev
    → Released s (release s)
unfolding release
release-Released s ev v h e =
    let gone : find s.expected (erase s.expected s.reorder) ≡ none =
      ground (arith, find-erase s.expected s.expected s.reorder v.distinct) in
    let next = inc64_exact s.expected h in
    record {
      draining = record {
        distinct = erase-Distinct s.expected s.reorder v.distinct;
        future = rw next (
            KeysFrom-suc s.expected (erase s.expected s.reorder)
              (erase-KeysFrom s.expected s.expected s.reorder v.future) gone);
        bounded = omega (arith, length-erase s.expected s.reorder e, v.bounded);
        flag = ground (arith, v.flag, find-is_empty s.expected s.reorder e);
      };
      next = next;
      rest = refl;
      configured = refl;
    }

-- One more event in front of what the rest of the loop does.
extend :
    (s : Sequencer) (ev : MarketEvent) {t u : Sequencer} {evs : List MarketEvent}
    → Distinct s.reorder
    → find s.expected s.reorder ≡ some ev
    → Released s t
    → Drained t evs u
    → Drained s (ev ∷ evs) u
extend s ev {t} {u} {evs} dist e r d =
    let fewer = length-erase s.expected s.reorder e in
    record {
      settled = d.settled;
      advanced = ground (arith, d.advanced, r.next);
      released = ground (arith, d.released, r.rest);
      in_order = (
        e,
        Agrees-erase (s.expected + 1) s.expected evs s.reorder dist (omega arith)
            (rw (← r.rest, ← r.next) d.in_order),
      );
      kept = λ k h.
          ground
            (arith, d.kept k h, r.rest, r.next, d.advanced, find-erase s.expected k s.reorder dist);
      configured = d.configured ∙ r.configured;
    }

drain_fuel-Drained :
    (fuel : ℕ) (s : Sequencer)
    → length s.reorder < fuel
    → s.expected + fuel < 2 ^ 64
    → IsDraining s
    → let (evs, t) = drain_fuel fuel s in Drained s evs t
drain_fuel-Drained zero s enough h v = absurd (omega arith)
drain_fuel-Drained (suc fuel) s enough h v = elim (Option-cases (find s.expected s.reorder)) [
  | inl e ↦ rw (drain_fuel-none fuel s e) (settle-Drained s v e)
  | inr (ev, e) ↦
      let r = release-Released s ev v (omega arith) e in
      let fewer = length-erase s.expected s.reorder e in
      rw (drain_fuel-some fuel s ev e) (
        extend s ev v.distinct e r
          (drain_fuel-Drained fuel (release s) (ground arith) (ground arith) r.draining))
]

-- From a buffer of distinct numbers, none of the past, with room in the 64-bit counter: the fuel of
-- `drain` is enough, the stream is settled afterwards, and the events popped are those that the
-- buffer held for the expected number and its successors, each taken out, with the rest of the
-- buffer kept.
pub drain-Drained :
    (s : Sequencer)
    → s.expected + length s.reorder + 1 < 2 ^ 64
    → IsDraining s
    → let (evs, t) = drain s in Drained s evs t
unfolding drain
drain-Drained s h v = drain_fuel-Drained (suc (length s.reorder)) s (omega arith) (omega arith) v

-- The configuration never changes.
drain_fuel-cfg : (fuel : ℕ) (s : Sequencer) → (drain_fuel fuel s).1.cfg ≡ s.cfg
unfolding drain_fuel pop_ready settle release
drain_fuel-cfg zero s = refl
drain_fuel-cfg (suc fuel) s = ground (arith, drain_fuel-cfg fuel (release s))

pub step-cfg : (seq : ℕ) (ev : MarketEvent) (s : Sequencer) → (step seq ev s).1.cfg ≡ s.cfg
unfolding step react offer resync_to_snapshot drain
step-cfg seq ev s =
    let t = record s {
      expected = inc64 s.expected;
      stats = record (s.stats) { accepted = inc64 s.stats.accepted };
    } in
    ground (arith, drain_fuel-cfg (suc (length s.reorder)) t)
