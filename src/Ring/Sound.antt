-- ===== src/Ring/Sound.antt =====
-- What holds between two accesses of the threads, and that the beginning of a call keeps it.
use burst_resilient_feed_han.Base.{
  ℕ, suc, ◌+◌, ◌^◌, ◌<◌, ◌≡◌, inl, inr, sym, ◌∙◌, List, ◌++◌, arith, Bool-cases,
}
use burst_resilient_feed_han.OrderBook.Types.{update-ne}
use burst_resilient_feed_han.Ring.{SpscRingBuffer, looks_full, looks_empty, store_item, load_item}
use burst_resilient_feed_han.Ring.Slots.{slot, slot-ne}
use burst_resilient_feed_han.Ring.Contents.{
  IsRing, looks_full_sound, looks_empty_sound, IsRing-fewer,
}
use burst_resilient_feed_han.Ring.Threads.{
  PushAt, outside, full_by_cache, storing, publishing, PopAt, waiting, empty_by_cache, reading,
  releasing, Threads, begin_push, begin_pop,
}

module _ {ℓ} {A : Type ℓ} (k : ℕ) where
  -- A thread past its test knows that there is room, or an item.
  abbrev pub PushKnows : SpscRingBuffer A → PushAt A → Type ℓ
  PushKnows r outside = Unit {ℓ}
  PushKnows r (full_by_cache x) = Unit {ℓ}
  PushKnows r (storing x) = Unit {ℓ} × (r.tail < r.cached_head + 2 ^ k)
  PushKnows r (publishing x) = (r.buffer (slot k r.tail) ≡ x) × (r.tail < r.cached_head + 2 ^ k)

  abbrev pub PopKnows : SpscRingBuffer A → PopAt A → Type ℓ
  PopKnows r waiting = Unit {ℓ}
  PopKnows r empty_by_cache = Unit {ℓ}
  PopKnows r reading = Unit {ℓ} × (r.head < r.cached_tail)
  PopKnows r (releasing x) = (load_item k r ≡ x) × (r.head < r.cached_tail)

  pub record IsSound (n : ℕ) (s : Threads A) (q : List A) : Type ℓ where
    pub ring_ok : IsRing k n s.ring q
    pub push_ok : PushKnows s.ring s.pushing
    pub pop_ok : PopKnows s.ring s.popping
    pub in_flight : s.accepted ≡ s.delivered ++ q

  -- A sound state with some contents.
  abbrev pub Sound : ℕ → Threads A → Type ℓ
  Sound n s = (q : List A) × IsSound n s q

  module _ (n : ℕ) (s : Threads A) (q : List A) (v : IsSound (suc n) s q) where
    pub fewer : IsRing k n s.ring q
    fewer = IsRing-fewer k n s.ring q v.ring_ok

    pub unchanged : Sound n s
    unchanged = (
      q,
      record { ring_ok = fewer; push_ok = v.push_ok; pop_ok = v.pop_ok; in_flight = v.in_flight },
    )

    pub begin_push-Sound : (x : A) (at : PushAt A) → at ≡ s.pushing → Sound n (begin_push k x at s)
    unfolding begin_push
    begin_push-Sound x outside e = elim (Bool-cases (looks_full k s.ring)) [
      | inl f ↦
          rw f (
            q,
            record { ring_ok = fewer; push_ok = tt; pop_ok = v.pop_ok; in_flight = v.in_flight },
          )
      | inr f ↦ rw f (
        q,
        record {
          ring_ok = fewer;
          push_ok = (tt, looks_full_sound k n s.ring q fewer f);
          pop_ok = v.pop_ok;
          in_flight = v.in_flight;
        },
      )
    ]
    begin_push-Sound x (full_by_cache _) e = unchanged
    begin_push-Sound x (storing _) e = unchanged
    begin_push-Sound x (publishing _) e = unchanged

    pub begin_pop-Sound : (at : PopAt A) → at ≡ s.popping → Sound n (begin_pop k at s)
    unfolding begin_pop
    begin_pop-Sound waiting e = elim (Bool-cases (looks_empty s.ring)) [
      | inl f ↦
          rw f (
            q,
            record { ring_ok = fewer; push_ok = v.push_ok; pop_ok = tt; in_flight = v.in_flight },
          )
      | inr f ↦ rw f (
        q,
        record {
          ring_ok = fewer;
          push_ok = v.push_ok;
          pop_ok = (tt, looks_empty_sound k n s.ring q fewer f);
          in_flight = v.in_flight;
        },
      )
    ]
    begin_pop-Sound empty_by_cache e = unchanged
    begin_pop-Sound reading e = unchanged
    begin_pop-Sound (releasing _) e = unchanged

  pub PushKnows-same :
      (r t : SpscRingBuffer A) (at : PushAt A)
      → t.tail ≡ r.tail
      → t.cached_head ≡ r.cached_head
      → t.buffer ≡ r.buffer
      → PushKnows r at
      → PushKnows t at
  PushKnows-same r t outside a b c p = tt
  PushKnows-same r t (full_by_cache x) a b c p = tt
  PushKnows-same r t (storing x) a b c p = (tt, rw (a, b) p.1)
  PushKnows-same r t (publishing x) a b c p = (rw (a, c) p.0, rw (a, b) p.1)

  pub PopKnows-same :
      (r t : SpscRingBuffer A) (at : PopAt A)
      → t.head ≡ r.head
      → t.cached_tail ≡ r.cached_tail
      → load_item k t ≡ load_item k r
      → PopKnows r at
      → PopKnows t at
  PopKnows-same r t waiting a b c p = tt
  PopKnows-same r t empty_by_cache a b c p = tt
  PopKnows-same r t reading a b c p = (tt, rw (a, b) p.1)
  PopKnows-same r t (releasing x) a b c p = (c ∙ p.0, rw (a, b) p.1)

  -- The producer's write leaves the item that the consumer is about to take.
  pub PopKnows-store_item :
      (n : ℕ) (r : SpscRingBuffer A) (q : List A) (x : A) (at : PopAt A)
      → IsRing k n r q
      → r.tail < r.cached_head + 2 ^ k
      → PopKnows r at
      → PopKnows (store_item k x r) at
  unfolding store_item load_item
  PopKnows-store_item n r q x waiting v room p = tt
  PopKnows-store_item n r q x empty_by_cache v room p = tt
  PopKnows-store_item n r q x reading v room p = p
  PopKnows-store_item n r q x (releasing y) v room p =
      let apart =
        slot-ne k r.head r.tail (omega (arith, v.known, p.1)) (omega (arith, v.lagging)) in
      (update-ne r.buffer (slot k r.tail) (slot k r.head) x (λ e. apart (sym e)) ∙ p.0, p.1)
