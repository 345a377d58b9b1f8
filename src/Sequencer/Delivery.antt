-- ===== src/Sequencer/Delivery.antt =====
-- What the consumer's book sees of a stream: the events in the order of their numbers, each number
-- once, as far as there is no hole in what has arrived.
use mathlib.Core.List.{append-nil}
use burst_resilient_feed_han.Base.{
  ℕ, suc, ◌+◌, ◌^◌, ◌≤◌, ◌<◌, ◌≡◌, ◌≢◌, ap, List, [], ◌∷◌, ◌++◌, some, none, length, arith, ◌∙◌,
  ◌==◌, if◌then◌else◌, length-append,
}
use burst_resilient_feed_han.Base.Word.{inc64, inc64_exact}
use burst_resilient_feed_han.Event.{MarketEvent}
use burst_resilient_feed_han.Sequencer.{Sequencer, Disposition, overflow, offer}
use burst_resilient_feed_han.Sequencer.Drain.{
  step, react, drain, IsSettled, IsDraining, drain-Drained, Agrees,
}
use burst_resilient_feed_han.Sequencer.Step.{
  Offered, old, next, full, held, offer-Offered, HasRoom, next-IsDraining, held-IsSettled,
  old-IsSettled,
}
use burst_resilient_feed_han.Sequencer.Buffer.{
  ReorderBuffer, find, emplace, find-emplace, find_below, length-emplace,
}

find-append :
    (k j : ℕ) (v : MarketEvent) (m : ReorderBuffer)
    → find k (m ++ ((j, v) ∷ []))
      ≡ (elim (find k m) [ some w ↦ some w | none ↦ if j == k then some v else none ])
unfolding find
find-append k j v [] = ground arith
find-append k j v ((i, w) ∷ m) = ground (arith, find-append k j v m)

Agrees-append :
    (e : ℕ) (ds es : List MarketEvent) (m : ReorderBuffer)
    → Agrees e ds m
    → Agrees (e + length ds) es m
    → Agrees e (ds ++ es) m
Agrees-append e [] es m a b = let same : e + 0 ≡ e = omega arith in rw same at b
Agrees-append e (d ∷ ds) es m a b =
    let same : e + suc (length ds) ≡ e + 1 + length ds = omega arith in
    (a.0, Agrees-append (e + 1) ds es m a.1 (rw same at b))

-- A later arrival does not change what is first.
Agrees-later :
    (e j : ℕ) (v : MarketEvent) (ds : List MarketEvent) (m : ReorderBuffer)
    → Agrees e ds m
    → Agrees e ds (m ++ ((j, v) ∷ []))
Agrees-later e j v [] m a = tt
Agrees-later e j v (d ∷ ds) m a =
    (ground (arith, find-append e j v m, a.0), Agrees-later (e + 1) j v ds m a.1)

Agrees-same :
    (e : ℕ) (ds : List MarketEvent) (m n : ReorderBuffer)
    → ((k : ℕ) → e ≤ k → find k m ≡ find k n)
    → Agrees e ds m
    → Agrees e ds n
Agrees-same e [] m n h a = tt
Agrees-same e (d ∷ ds) m n h a = (
  ground (arith, a.0, h e (omega arith)),
  Agrees-same (e + 1) ds m n (λ k p. h k (omega arith)) a.1,
)

-- After the messages `ps`, with `ds` delivered since the number `start`.
pub record Delivered (start : ℕ) (ps : ReorderBuffer) (ds : List MarketEvent) (s : Sequencer)
    : Type 0 where
  pub settled : IsSettled s
  pub counted : s.expected ≡ start + length ds
  pub agrees : Agrees start ds ps
  pub pending : (k : ℕ) → s.expected ≤ k → find k s.reorder ≡ find k ps
  pub room : length ds + length s.reorder ≤ length ps

module _ (start : ℕ) (ps : ReorderBuffer) (ds : List MarketEvent) (s : Sequencer)
    (v : Delivered start ps ds s) (seq : ℕ) (ev : MarketEvent) where
  roomy : start + length ps + 2 < 2 ^ 64 → HasRoom s
  roomy h = omega (arith, v.counted, v.room)

  after-drop :
      (t : Sequencer)
      → IsSettled t
      → seq < s.expected
      → t.expected ≡ s.expected
      → t.reorder ≡ s.reorder
      → Delivered start (ps ++ ((seq, ev) ∷ [])) ds t
  after-drop t w h e r = record {
    settled = w;
    counted = e ∙ v.counted;
    agrees = Agrees-later start seq ev ds ps v.agrees;
    pending = λ k p. ground (arith, r, e, v.pending k, find-append k seq ev ps);
    room = rw r (omega (arith, v.room, length-append ps ((seq, ev) ∷ [])));
  }

  after-held :
      (t : Sequencer)
      → IsSettled t
      → s.expected < seq
      → t.expected ≡ s.expected
      → t.reorder ≡ emplace seq ev s.reorder
      → Delivered start (ps ++ ((seq, ev) ∷ [])) ds t
  after-held t w h e r = record {
    settled = w;
    counted = e ∙ v.counted;
    agrees = Agrees-later start seq ev ds ps v.agrees;
    pending = λ k p.
        ground (arith, r, e, v.pending k, find-append k seq ev ps, find-emplace seq k ev s.reorder);
    room =
        rw r (
          omega
            (arith, v.room, length-append ps ((seq, ev) ∷ []), length-emplace seq ev s.reorder));
  }

  -- The number that was missing is now the first arrival of its number.
  found_next : seq ≡ s.expected → find s.expected (ps ++ ((seq, ev) ∷ [])) ≡ some ev
  found_next q = ground (
    arith,
    find-append s.expected seq ev ps,
    v.pending s.expected,
    find_below (s.expected + 1) s.expected s.reorder v.settled.future,
  )

  beyond_next :
      (k : ℕ)
      → seq ≡ s.expected
      → s.expected + 1 ≤ k
      → find k s.reorder ≡ find k (ps ++ ((seq, ev) ∷ []))
  beyond_next k q h = ground (arith, find-append k seq ev ps, v.pending k)

  after-next :
      (t : Sequencer)
      → start + length ps + 2 < 2 ^ 64
      → seq ≡ s.expected
      → t.expected ≡ inc64 s.expected
      → t.reorder ≡ s.reorder
      → IsDraining t
      → let (es, u) = drain t in Delivered start (ps ++ ((seq, ev) ∷ [])) (ds ++ (ev ∷ es)) u
  after-next t h q e r w =
      let counted = inc64_exact s.expected (omega (arith, v.counted, v.room)) in
      let next : t.expected ≡ s.expected + 1 = e ∙ counted in
      let d = drain-Drained t (rw (next, r) (omega (arith, v.counted, v.room))) w in
      let es = (drain t).0 in
      let rest : Agrees (s.expected + 1) es (ps ++ ((seq, ev) ∷ [])) =
        Agrees-same (s.expected + 1) es s.reorder (ps ++ ((seq, ev) ∷ []))
          (λ k p. beyond_next k q p) (rw (← next, ← r) d.in_order) in
      record {
        settled = d.settled;
        counted = omega (arith, d.advanced, next, v.counted, length-append ds (ev ∷ (drain t).0));
        agrees =
            Agrees-append start ds (ev ∷ es) (ps ++ ((seq, ev) ∷ []))
              (Agrees-later start seq ev ds ps v.agrees) (rw (← v.counted) (found_next q, rest));
        pending = λ k p. ground (arith, d.kept k p, r, next, d.advanced, beyond_next k q);
        room = omega (
          arith,
          d.released,
          ap length r,
          v.room,
          length-append ds (ev ∷ (drain t).0),
          length-append ps ((seq, ev) ∷ []),
        );
      }

  -- The three dispositions without a resync.
  react-Delivered :
      {d : Disposition} {t : Sequencer}
      → start + length ps + 2 < 2 ^ 64
      → Offered seq ev s d t
      → d ≢ overflow
      → let (es, u) = react seq ev d t in Delivered start (ps ++ ((seq, ev) ∷ [])) (ds ++ es) u
  unfolding react
  react-Delivered {t = t} h (old o e x r st c) n =
      rw (e, append-nil) (after-drop t (old-IsSettled seq ev s t v.settled x r st c) o x r)
  react-Delivered {t = t} h (next o e x r st c) n =
      rw e (after-next t h o x r (next-IsDraining seq ev s t v.settled (roomy h) x r st c))
  react-Delivered {t = t} h (full o e b st m c) n = absurd (n e)
  react-Delivered {t = t} h (held o e b x r st c) n =
      rw (e, append-nil) (after-held t (held-IsSettled seq ev s t v.settled o b x r st c) o x r)

  pub step-Delivered :
      start + length ps + 2 < 2 ^ 64
      → (offer seq ev s).0 ≢ overflow
      → let (es, u) = step seq ev s in Delivered start (ps ++ ((seq, ev) ∷ [])) (ds ++ es) u
  unfolding step
  step-Delivered h n = react-Delivered h (offer-Offered seq ev s) n
