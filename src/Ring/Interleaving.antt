-- ===== src/Ring/Interleaving.antt =====
-- However the two threads interleave, what the consumer gets is what the producer put in, in order.
use mathlib.Core.List.{append_assoc}
use burst_resilient_feed_han.Base.{
  ℕ, suc, ◌^◌, ◌≤◌, ◌<◌, ◌≡◌, inl, inr, refl, sym, ap, subst, ◌∙◌, List, [], ◌∷◌, ◌++◌, length,
  arith, Bool-cases,
}
use burst_resilient_feed_han.OrderBook.Types.{update_self}
use burst_resilient_feed_han.Ring.{
  init, looks_full, looks_empty, reload_head, reload_tail, store_item, publish, load_item, release,
}
use burst_resilient_feed_han.Ring.Slots.{slot}
use burst_resilient_feed_han.Ring.Contents.{
  init-IsRing, looks_full_sound, looks_empty_sound, reload_head-IsRing, reload_tail-IsRing,
  store_item-IsRing, publish-IsRing, release-IsRing,
}
use burst_resilient_feed_han.Ring.Threads
use burst_resilient_feed_han.Ring.Threads.{
  PushAt, outside, full_by_cache, storing, publishing, PopAt, waiting, empty_by_cache, reading,
  releasing, Threads, Act, begin_push, advance_push, begin_pop, advance_pop, act, run, start,
}
use burst_resilient_feed_han.Ring.Sound.{
  PushKnows, PopKnows, IsSound, Sound, fewer, unchanged, begin_push-Sound, begin_pop-Sound,
  PushKnows-same, PopKnows-same, PopKnows-store_item,
}

module _ {ℓ} {A : Type ℓ} (k : ℕ) where
  module _ (n : ℕ) (s : Threads A) (q : List A) (v : IsSound k (suc n) s q) where
    reloaded_head-Sound : (x : A) → Sound k n (advance_push k (full_by_cache x) s)
    unfolding advance_push reload_head load_item
    reloaded_head-Sound x =
        let w = reload_head-IsRing k n s.ring q (fewer k n s q v) in
        let seen = PopKnows-same k s.ring (reload_head s.ring) s.popping refl refl refl v.pop_ok in
        elim (Bool-cases (looks_full k (reload_head s.ring))) [
          | inl f ↦
              rw f (q, record { ring_ok = w; push_ok = tt; pop_ok = seen; in_flight = v.in_flight })
          | inr f ↦ rw f (
            q,
            record {
              ring_ok = w;
              push_ok = (tt, looks_full_sound k n (reload_head s.ring) q w f);
              pop_ok = seen;
              in_flight = v.in_flight;
            },
          )
        ]

    stored-Sound :
        (x : A) → PushKnows k s.ring (storing x) → Sound k n (advance_push k (storing x) s)
    unfolding advance_push store_item
    stored-Sound x (_, room) = (
      q,
      record {
        ring_ok = store_item-IsRing k n s.ring q x room (fewer k n s q v);
        push_ok = (update_self s.ring.buffer (slot k s.ring.tail) x, room);
        pop_ok = PopKnows-store_item k n s.ring q x s.popping (fewer k n s q v) room v.pop_ok;
        in_flight = v.in_flight;
      },
    )

    published-Sound :
        (x : A) → PushKnows k s.ring (publishing x) → Sound k n (advance_push k (publishing x) s)
    unfolding advance_push publish load_item
    published-Sound x (there, room) = (
      q ++ (x ∷ []),
      record {
        ring_ok = publish-IsRing k n s.ring q x room there v.ring_ok;
        push_ok = tt;
        pop_ok = PopKnows-same k s.ring (publish s.ring) s.popping refl refl refl v.pop_ok;
        in_flight = ap (λ l. l ++ (x ∷ [])) v.in_flight ∙ append_assoc s.delivered q (x ∷ []);
      },
    )

    advance_push-Sound : (at : PushAt A) → at ≡ s.pushing → Sound k n (advance_push k at s)
    unfolding advance_push
    advance_push-Sound outside e = unchanged k n s q v
    advance_push-Sound (full_by_cache x) e = reloaded_head-Sound x
    advance_push-Sound (storing x) e = stored-Sound x (subst (PushKnows k s.ring) (sym e) v.push_ok)
    advance_push-Sound (publishing x) e =
        published-Sound x (subst (PushKnows k s.ring) (sym e) v.push_ok)

    reloaded_tail-Sound : Sound k n (advance_pop k empty_by_cache s)
    unfolding advance_pop reload_tail
    reloaded_tail-Sound =
        let w = reload_tail-IsRing k n s.ring q (fewer k n s q v) in
        let still =
          PushKnows-same k s.ring (reload_tail s.ring) s.pushing refl refl refl v.push_ok in
        elim (Bool-cases (looks_empty (reload_tail s.ring))) [
          | inl f ↦
              rw f
                (q, record { ring_ok = w; push_ok = still; pop_ok = tt; in_flight = v.in_flight })
          | inr f ↦ rw f (
            q,
            record {
              ring_ok = w;
              push_ok = still;
              pop_ok = (tt, looks_empty_sound k n (reload_tail s.ring) q w f);
              in_flight = v.in_flight;
            },
          )
        ]

    released-Sound :
        (x : A) → PopKnows k s.ring (releasing x) → Sound k n (advance_pop k (releasing x) s)
    unfolding advance_pop release
    released-Sound x (loaded, ahead) =
        let t = release-IsRing k n s.ring q ahead (fewer k n s q v) in
        let front = t.at_front ∙ ap (λ (y : A). y ∷ t.others) (sym t.loaded ∙ loaded) in
        (
          t.others,
          record {
            ring_ok = t.released;
            push_ok = PushKnows-same k s.ring (release s.ring) s.pushing refl refl refl v.push_ok;
            pop_ok = tt;
            in_flight =
                v.in_flight
                ∙ ap (λ l. s.delivered ++ l) front
                ∙ sym (append_assoc s.delivered (x ∷ []) t.others);
          },
        )

    advance_pop-Sound : (at : PopAt A) → at ≡ s.popping → Sound k n (advance_pop k at s)
    unfolding advance_pop
    advance_pop-Sound waiting e = unchanged k n s q v
    advance_pop-Sound empty_by_cache e = reloaded_tail-Sound
    advance_pop-Sound reading e = (
      q,
      record {
        ring_ok = fewer k n s q v;
        push_ok = v.push_ok;
        pop_ok = (refl, (subst (PopKnows k s.ring) (sym e) v.pop_ok).1);
        in_flight = v.in_flight;
      },
    )
    advance_pop-Sound (releasing x) e =
        released-Sound x (subst (PopKnows k s.ring) (sym e) v.pop_ok)

    act-Sound : (a : Act A) → Sound k n (act k a s)
    unfolding act
    act-Sound (Threads.push x) = begin_push-Sound k n s q v x s.pushing refl
    act-Sound Threads.produce = advance_push-Sound s.pushing refl
    act-Sound Threads.pop = begin_pop-Sound k n s q v s.popping refl
    act-Sound Threads.take_item = advance_pop-Sound s.popping refl

  run-Sound :
      (acts : List (Act A)) (s : Threads A) → Sound k (length acts) s → Sound k 0 (run k acts s)
  unfolding run
  run-Sound [] s v = v
  run-Sound (a ∷ rest) s (q, v) = run-Sound rest (act k a s) (act-Sound (length rest) s q v a)

  start-Sound : (n : ℕ) (blank : A) → n < 2 ^ 64 → Sound k n (start blank)
  unfolding start init
  start-Sound n blank h = (
    [],
    record { ring_ok = init-IsRing k n blank h; push_ok = tt; pop_ok = tt; in_flight = refl },
  )

  -- However the accesses of the two threads interleave, as long as there are fewer than 2^64 of
  -- them: the items that the pushes took in are those that the pops gave out, in the same order,
  -- each once, followed by at most `Capacity` items that the ring still holds.
  pub run_in_order :
      (blank : A) (acts : List (Act A))
      → length acts < 2 ^ 64
      → let s = run k acts (start blank) in
        (q : List A) × (s.accepted ≡ s.delivered ++ q) × (length q ≤ 2 ^ k)
  run_in_order blank acts h =
      let (q, v) = run-Sound acts (start blank) (start-Sound (length acts) blank h) in
      let r = v.ring_ok in (q, v.in_flight, omega (arith, r.extent, r.within, r.lagging))
