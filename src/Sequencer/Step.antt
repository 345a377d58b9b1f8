-- ===== src/Sequencer/Step.antt =====
-- One message through `handle`: the sequencer stays settled, on every disposition.
use burst_resilient_feed_han.Base.{
  ℕ, ◌+◌, ◌^◌, ◌≤◌, ◌<◌, ◌≡◌, refl, ap, true, length, arith, inl, inr, Bool-cases, ltb, leb, ◌==◌,
}
use burst_resilient_feed_han.Base.Word.{inc64, inc64_exact}
use burst_resilient_feed_han.Event.{MarketEvent}
use burst_resilient_feed_han.Sequencer.{
  Sequencer, Disposition, apply, drop, buffered, overflow, offer, open_gap, hold,
  resync_to_snapshot,
}
use burst_resilient_feed_han.Sequencer.Drain.{step, react, IsSettled, IsDraining, drain-Drained}
use burst_resilient_feed_han.Sequencer.Buffer.{
  emplace, emplace-KeysFrom, emplace-Distinct, length-emplace, emplace-is_empty,
}

-- The four outcomes of `offer`, each with its condition and the fields that it sets.
pub data Offered (seq : ℕ) (ev : MarketEvent) (s : Sequencer) (d : Disposition) (t : Sequencer)
    : Type 0 where
  old :
      seq < s.expected
      → d ≡ drop
      → t.expected ≡ s.expected
      → t.reorder ≡ s.reorder
      → t.stale ≡ s.stale
      → t.cfg ≡ s.cfg
      → Offered seq ev s d t
  next :
      seq ≡ s.expected
      → d ≡ apply
      → t.expected ≡ inc64 s.expected
      → t.reorder ≡ s.reorder
      → t.stale ≡ s.stale
      → t.cfg ≡ s.cfg
      → Offered seq ev s d t
  full :
      s.expected < seq
      → d ≡ overflow
      → s.cfg.reorder_capacity ≤ length s.reorder
      → t.stale ≡ true
      → t.needs_snapshot ≡ true
      → t.cfg ≡ s.cfg
      → Offered seq ev s d t
  held :
      s.expected < seq
      → d ≡ buffered
      → length s.reorder < s.cfg.reorder_capacity
      → t.expected ≡ s.expected
      → t.reorder ≡ emplace seq ev s.reorder
      → t.stale ≡ true
      → t.cfg ≡ s.cfg
      → Offered seq ev s d t

-- What the gap's bookkeeping leaves alone, and that it marks the stream stale.
record Opened (s g : Sequencer) : Type 0 where
  marked : g.stale ≡ true
  same_expected : g.expected ≡ s.expected
  same_reorder : g.reorder ≡ s.reorder
  same_cfg : g.cfg ≡ s.cfg

open_gap-Opened : (seq : ℕ) (s : Sequencer) → Opened s (open_gap seq s)
unfolding open_gap
open_gap-Opened seq s = ground arith

hold-Offered :
    (seq : ℕ) (ev : MarketEvent) (s g : Sequencer)
    → s.expected < seq
    → Opened s g
    → let (d, t) = hold seq ev g in Offered seq ev s d t
unfolding hold
hold-Offered seq ev s g h o = elim (Bool-cases (leb g.cfg.reorder_capacity (length g.reorder))) [
  | inl f ↦ rw f (full h refl (ground arith) o.marked refl o.same_cfg)
  | inr f ↦ rw f (
      held h refl (ground arith) o.same_expected (ap (emplace seq ev) o.same_reorder) o.marked
        o.same_cfg)
]

-- Each call of `offer` ends in one of the four, as its tests say.
pub offer-Offered :
    (seq : ℕ) (ev : MarketEvent) (s : Sequencer)
    → let (d, t) = offer seq ev s in Offered seq ev s d t
unfolding offer
offer-Offered seq ev s = elim (Bool-cases (ltb seq s.expected)) [
  | inl o ↦ rw o (old (ground arith) refl refl refl refl refl)
  | inr o ↦ rw o (elim (Bool-cases (seq == s.expected)) [
    | inl e ↦ rw e (next (ground arith) refl refl refl refl refl)
    | inr e ↦ rw e (hold-Offered seq ev s (open_gap seq s) (ground arith) (open_gap-Opened seq s))
  ])
]

-- Room for the counter: neither the number offered nor the drain that may follow makes it wrap.
abbrev pub HasRoom : Sequencer → Type 0
HasRoom s = s.expected + length s.reorder + 2 < 2 ^ 64

module _ (seq : ℕ) (ev : MarketEvent) (s : Sequencer) where
  -- After the expected number, the drain may begin.
  pub next-IsDraining :
      (t : Sequencer)
      → IsSettled s
      → HasRoom s
      → t.expected ≡ inc64 s.expected
      → t.reorder ≡ s.reorder
      → t.stale ≡ s.stale
      → t.cfg ≡ s.cfg
      → IsDraining t
  next-IsDraining t v h e r st c =
      let counted = inc64_exact s.expected (omega arith) in
      record {
        distinct = rw r v.distinct;
        future = rw (r, e, counted) v.future;
        bounded = rw (r, c) v.bounded;
        flag = ground (arith, v.flag);
      }

  pub old-IsSettled :
      (t : Sequencer)
      → IsSettled s
      → t.expected ≡ s.expected
      → t.reorder ≡ s.reorder
      → t.stale ≡ s.stale
      → t.cfg ≡ s.cfg
      → IsSettled t
  old-IsSettled t v x r st c = record {
    distinct = rw r v.distinct;
    future = rw (r, x) v.future;
    bounded = rw (r, c) v.bounded;
    flag = rw (r, st) v.flag;
  }

  pub held-IsSettled :
      (t : Sequencer)
      → IsSettled s
      → s.expected < seq
      → length s.reorder < s.cfg.reorder_capacity
      → t.expected ≡ s.expected
      → t.reorder ≡ emplace seq ev s.reorder
      → t.stale ≡ true
      → t.cfg ≡ s.cfg
      → IsSettled t
  held-IsSettled t v h b e r st c = record {
    distinct = rw r (emplace-Distinct seq ev s.reorder v.distinct);
    future = rw (r, e) (emplace-KeysFrom (s.expected + 1) seq ev s.reorder (omega arith) v.future);
    bounded = rw (r, c) (omega (arith, length-emplace seq ev s.reorder));
    flag = rw (r, st) (ground (arith, emplace-is_empty seq ev s.reorder));
  }

  resync_to_snapshot-IsSettled : (t : Sequencer) → IsSettled (resync_to_snapshot seq t)
  unfolding resync_to_snapshot
  resync_to_snapshot-IsSettled t = record {
    distinct = tt;
    future = tt;
    bounded = omega arith;
    flag = refl;
  }

  -- Whatever `offer` answered, `handle` leaves the sequencer settled.
  pub react-IsSettled :
      {d : Disposition} {t : Sequencer}
      → IsSettled s
      → HasRoom s
      → Offered seq ev s d t
      → IsSettled (react seq ev d t).1
  unfolding react
  react-IsSettled {t = t} v h (old o e x r st c) = rw e (old-IsSettled t v x r st c)
  react-IsSettled {t = t} v h (next o e x r st c) = rw e (
      (drain-Drained t (ground (arith, inc64_exact s.expected))
        (next-IsDraining t v h x r st c)).settled)
  react-IsSettled {t = t} v h (full o e b st n c) = rw e (resync_to_snapshot-IsSettled t)
  react-IsSettled {t = t} v h (held o e b x r st c) = rw e (held-IsSettled t v o b x r st c)

  -- A message keeps the sequencer settled, on every disposition, a resync included: its buffer holds
  -- distinct future numbers only, within the capacity, and it is stale exactly while something is held.
  -- The 64-bit counter must have room for what is held and two more.
  pub step-IsSettled : IsSettled s → HasRoom s → IsSettled (step seq ev s).1
  unfolding step
  step-IsSettled v h = react-IsSettled v h (offer-Offered seq ev s)
