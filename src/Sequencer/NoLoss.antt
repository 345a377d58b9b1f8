-- ===== src/Sequencer/NoLoss.antt =====
-- A stream whose messages carry what was sent under their numbers, in any order and with repeats.
use burst_resilient_feed_han.Base.{
  ℕ, zero, suc, ◌+◌, ◌^◌, ◌≤◌, ◌<◌, ◌≡◌, ◌≢◌, refl, ap, List, [], ◌∷◌, ◌==◌, none, some, length,
  arith, inl, inr, Bool-cases,
}
use burst_resilient_feed_han.Event.{MarketEvent}
use burst_resilient_feed_han.Sequencer.{SequencerConfig, init}
use burst_resilient_feed_han.Sequencer.Drain.{feed, Agrees}
use burst_resilient_feed_han.Sequencer.Buffer.{ReorderBuffer, find}
use burst_resilient_feed_han.Sequencer.InOrder.{NoOverflow, feed_in_order}

module _ (source : ℕ → MarketEvent) where
  -- Each message carries the event that was sent under its number.
  abbrev pub IsSent : ReorderBuffer → Type 0
  IsSent [] = Unit {0}
  IsSent ((k, ev) ∷ xs) = (ev ≡ source k) × IsSent xs

  -- The `n` events that were sent from the number `k` on.
  unfoldable pub sent : ℕ → ℕ → List MarketEvent
  sent k zero = []
  sent k (suc n) = source k ∷ sent (k + 1) n

  length-sent : (k n : ℕ) → length (sent k n) ≡ n
  unfolding sent
  length-sent k zero = refl
  length-sent k (suc n) = omega (arith, length-sent (k + 1) n)

  find-IsSent :
      (k : ℕ) (ev : MarketEvent) (xs : ReorderBuffer)
      → IsSent xs
      → find k xs ≡ some ev
      → ev ≡ source k
  unfolding find
  find-IsSent k ev [] v e = absurd (ground arith)
  find-IsSent k ev ((j, x) ∷ xs) v e = elim (Bool-cases (j == k)) [
    | inl t ↦
        let same : j ≡ k = ground (arith, t) in
        let first : x ≡ ev = ground (arith, t, e) in rw (← first, ← same) v.0
    | inr f ↦ find-IsSent k ev xs v.1 (ground (arith, f, e))
  ]

  Agrees-sent :
      (n k : ℕ) (ds : List MarketEvent) (xs : ReorderBuffer)
      → IsSent xs
      → ((j : ℕ) → k ≤ j → j < k + n → find j xs ≢ none)
      → find (k + n) xs ≡ none
      → Agrees k ds xs
      → find (k + length ds) xs ≡ none
      → ds ≡ sent k n
  unfolding sent
  Agrees-sent zero k [] xs v all hole a end = refl
  Agrees-sent (suc n) k [] xs v all hole a end =
      let here : k + 0 ≡ k = omega arith in
      absurd (all k (omega arith) (omega arith) (rw here at end))
  Agrees-sent zero k (d ∷ ds) xs v all hole a end =
      let here : k + 0 ≡ k = omega arith in
      let none_here : find k xs ≡ none = rw here at hole in absurd (ground (arith, none_here, a.0))
  Agrees-sent (suc n) k (d ∷ ds) xs v all hole a end =
      let sum : k + suc n ≡ k + 1 + n = omega arith in
      let sum' : k + suc (length ds) ≡ k + 1 + length ds = omega arith in
      rw
        (
          find-IsSent k d xs v a.0,
          Agrees-sent n (k + 1) ds xs v (λ j lo hi. all j (omega arith) (omega arith))
              (rw sum at hole) a.1 (rw sum' at end),
        )
        refl

  -- Over a stream in any order, with repeats, whose messages carry what was sent under their numbers
  -- and that never overflows the reorder buffer (nor the 64-bit counter): if every number from
  -- `start_seq` to before `start_seq + n` has arrived and `start_seq + n` has not, the book is given
  -- the `n` events sent under these numbers, all of them, in the order sent and each once, and no
  -- other event; the number expected next is the missing one.
  pub feed_no_loss :
      (cfg : SequencerConfig) (xs : List (ℕ × MarketEvent)) (n : ℕ)
      → cfg.start_seq + length xs + 2 < 2 ^ 64
      → NoOverflow xs (init cfg)
      → IsSent xs
      → ((j : ℕ) → cfg.start_seq ≤ j → j < cfg.start_seq + n → find j xs ≢ none)
      → find (cfg.start_seq + n) xs ≡ none
      → let (ds, s) = feed xs (init cfg) in
        (ds ≡ sent cfg.start_seq n) × (s.expected ≡ cfg.start_seq + n)
  feed_no_loss cfg xs n h ok v all hole =
      let (ds, s) = feed xs (init cfg) in
      let r = feed_in_order cfg xs h ok in
      let end : find (cfg.start_seq + length ds) xs ≡ none = rw (← r.2) r.1 in
      let given : ds ≡ sent cfg.start_seq n =
        Agrees-sent n cfg.start_seq ds xs v all hole r.0 end in
      (given, omega (arith, r.2, ap length given, length-sent cfg.start_seq n))
