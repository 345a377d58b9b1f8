-- ===== src/Ring/Queue.antt =====
-- `push` and `pop`, called one after the other, are those of a bounded queue, whatever the caches hold.
use burst_resilient_feed_han.Base.{
  ℕ, suc, ◌^◌, ◌<◌, ◌≡◌, inl, inr, refl, List, [], ◌∷◌, ◌++◌, Bool, true, false, Option, none, some,
  length, arith, Bool-cases,
}
use burst_resilient_feed_han.OrderBook.Types.{update_self}
use burst_resilient_feed_han.Ring.{
  SpscRingBuffer, looks_full, looks_empty, reload_head, reload_tail, store_item, publish, load_item,
  release, push, pop,
}
use burst_resilient_feed_han.Ring.Slots.{slot}
use burst_resilient_feed_han.Ring.Contents.{
  IsRing, looks_full_sound, full_after_reload, looks_empty_sound, reload_head-IsRing,
  reload_tail-IsRing, store_item-IsRing, publish-IsRing, release-IsRing, IsRing-fewer,
}

module _ {ℓ} {A : Type ℓ} (k : ℕ) where
  stored_at_tail : (r : SpscRingBuffer A) (x : A) → (store_item k x r).buffer (slot k r.tail) ≡ x
  unfolding store_item
  stored_at_tail r x = update_self r.buffer (slot k r.tail) x

  -- What `push` may answer on a ring that holds `q`.
  pub data Pushed (n : ℕ) (x : A) (q : List A) (done : Bool) (r : SpscRingBuffer A) : Type ℓ where
    entered : length q < 2 ^ k → done ≡ true → IsRing k n r (q ++ (x ∷ [])) → Pushed n x q done r
    refused : length q ≡ 2 ^ k → done ≡ false → IsRing k n r q → Pushed n x q done r

  enter-Pushed :
      (n : ℕ) (x : A) (q : List A) (r : SpscRingBuffer A)
      → IsRing k (suc n) r q
      → looks_full k r ≡ false
      → Pushed n x q true (publish (store_item k x r))
  unfolding store_item
  enter-Pushed n x q r v e =
      let room = looks_full_sound k (suc n) r q v e in
      entered (omega (arith, v.extent, v.lagging)) refl (
        publish-IsRing k n (store_item k x r) q x room (stored_at_tail r x)
          (store_item-IsRing k (suc n) r q x room v))

  -- On a ring that holds `q`, with an index to spare of the 64-bit ones: if `q` is shorter than the
  -- capacity, `push` returns true and the item is at the back; else the ring is full, `push`
  -- returns false and the ring holds `q` still.
  pub push-Pushed :
      (n : ℕ) (x : A) (q : List A) (r : SpscRingBuffer A)
      → IsRing k (suc n) r q
      → let (done, r') = push k x r in Pushed n x q done r'
  unfolding push
  push-Pushed n x q r v = elim (Bool-cases (looks_full k r)) [
    | inr e ↦ rw (e, e) (enter-Pushed n x q r v e)
    | inl e ↦ rw e (
        let w = reload_head-IsRing k (suc n) r q v in
        elim (Bool-cases (looks_full k (reload_head r))) [
          | inr f ↦ rw f (enter-Pushed n x q (reload_head r) w f)
          | inl f ↦ rw f (
              refused (full_after_reload k (suc n) r q v f) refl
                (IsRing-fewer k n (reload_head r) q w))
        ])
  ]

  -- A push on a full ring changes nothing but the cache.
  pub push-full :
      (n : ℕ) (x : A) (q : List A) (r : SpscRingBuffer A)
      → length q ≡ 2 ^ k
      → IsRing k n r q
      → let (done, r') = push k x r in (done ≡ false) × IsRing k n r' q
  unfolding push
  push-full n x q r full v = elim (Bool-cases (looks_full k r)) [
    | inr e ↦ absurd (omega (arith, looks_full_sound k n r q v e, v.extent, v.lagging))
    | inl e ↦ rw e (
        let w = reload_head-IsRing k n r q v in
        elim (Bool-cases (looks_full k (reload_head r))) [
          | inr f ↦
              absurd
                (omega (arith, looks_full_sound k n (reload_head r) q w f, w.extent, w.lagging))
          | inl f ↦ rw f (refl, w)
        ])
  ]

  -- What `pop` may answer.
  pub data Popped (n : ℕ) (q : List A) (out : Option A) (r : SpscRingBuffer A) : Type ℓ where
    oldest :
        (x : A) (rest : List A) → q ≡ x ∷ rest → out ≡ some x → IsRing k n r rest → Popped n q out r
    nothing : q ≡ [] → out ≡ none → IsRing k n r q → Popped n q out r

  take-Popped :
      (n : ℕ) (q : List A) (r : SpscRingBuffer A)
      → IsRing k n r q
      → looks_empty r ≡ false
      → Popped n q (some (load_item k r)) (release r)
  take-Popped n q r v e =
      let t = release-IsRing k n r q (looks_empty_sound k n r q v e) v in
      oldest t.oldest t.others t.at_front (rw (t.loaded) refl) t.released

  empty_after_reload :
      (n : ℕ) (q : List A) (r : SpscRingBuffer A)
      → IsRing k n r q
      → looks_empty (reload_tail r) ≡ true
      → q ≡ []
  unfolding looks_empty reload_tail
  empty_after_reload n [] r v e = refl
  empty_after_reload n (x ∷ q) r v e = absurd (ground (arith, v.extent))

  -- On a ring that holds `q`, `pop` gives the item at the front and leaves the rest, or says that there
  -- is nothing exactly if `q` is empty.
  pub pop-Popped :
      (n : ℕ) (q : List A) (r : SpscRingBuffer A)
      → IsRing k n r q
      → let (out, r') = pop k r in Popped n q out r'
  unfolding pop
  pop-Popped n q r v = elim (Bool-cases (looks_empty r)) [
    | inr e ↦ rw (e, e) (take-Popped n q r v e)
    | inl e ↦ rw e (
        let w = reload_tail-IsRing k n r q v in
        elim (Bool-cases (looks_empty (reload_tail r))) [
          | inr f ↦ rw f (take-Popped n q (reload_tail r) w f)
          | inl f ↦ rw f (nothing (empty_after_reload n q r v f) refl w)
        ])
  ]
