-- ===== src/Ring/Contents.antt =====
-- What the ring holds, as a list: the effect of each access on it.
use burst_resilient_feed_han.Base.{
  ℕ, suc, ◌+◌, ◌^◌, ◌≤◌, ◌<◌, ◌≡◌, refl, sym, ap, ◌∙◌, List, [], ◌∷◌, ◌++◌, true, false, length,
  arith, length-append,
}
use burst_resilient_feed_han.Base.Word.{sub64, inc64_exact}
use burst_resilient_feed_han.OrderBook.Types.{update, update-ne}
use burst_resilient_feed_han.Ring.{
  SpscRingBuffer, init, looks_full, looks_empty, reload_head, reload_tail, store_item, publish,
  load_item, release,
}
use burst_resilient_feed_han.Ring.Slots.{slot, slot-ne}

module _ {ℓ} {A : Type ℓ} (k : ℕ) where
  -- The slots from that of the index `h` on hold the list.
  abbrev pub Stored : (ℕ → A) → ℕ → List A → Type ℓ
  Stored buf h [] = Unit {ℓ}
  Stored buf h (x ∷ q) = (buf (slot k h) ≡ x) × Stored buf (h + 1) q

  -- The ring holds `q`, and `n` more items can be numbered. The caches lag behind.
  pub record IsRing (n : ℕ) (r : SpscRingBuffer A) (q : List A) : Type ℓ where
    pub stored : Stored r.buffer r.head q
    pub extent : r.tail ≡ r.head + length q
    pub lagging : r.cached_head ≤ r.head
    pub within : r.tail ≤ r.cached_head + 2 ^ k
    pub ahead : r.head ≤ r.cached_tail
    pub known : r.cached_tail ≤ r.tail
    pub countable : r.tail + n < 2 ^ 64

  pub init-IsRing : (n : ℕ) (blank : A) → n < 2 ^ 64 → IsRing n (init blank) []
  unfolding init
  init-IsRing n blank h = record {
    stored = tt;
    extent = refl;
    lagging = omega arith;
    within = omega arith;
    ahead = omega arith;
    known = omega arith;
    countable = omega arith;
  }

  Stored-append :
      (buf : ℕ → A) (h : ℕ) (q : List A) (x : A)
      → Stored buf h q
      → buf (slot k (h + length q)) ≡ x
      → Stored buf h (q ++ (x ∷ []))
  Stored-append buf h [] x c e = (ap (λ (i : ℕ). buf (slot k i)) (omega arith) ∙ e, tt)
  Stored-append buf h (y ∷ q) x c e =
      (c.0, Stored-append buf (h + 1) q x c.1 (ap (λ (i : ℕ). buf (slot k i)) (omega arith) ∙ e))

  -- A write at an index past the list, by less than a round of the capacity, changes nothing of it.
  Stored-update :
      (buf : ℕ → A) (h t : ℕ) (x : A) (q : List A)
      → h + length q ≤ t
      → t < h + 2 ^ k
      → Stored buf h q
      → Stored (update buf (slot k t) x) h q
  Stored-update buf h t x [] a b c = tt
  Stored-update buf h t x (y ∷ q) a b c = (
    update-ne buf (slot k t) (slot k h) x (λ e. slot-ne k h t (omega arith) b (sym e)) ∙ c.0,
    Stored-update buf (h + 1) t x q (omega arith) (omega arith) c.1,
  )

  module _ (n : ℕ) (r : SpscRingBuffer A) (q : List A) where
    -- The test on the cache, in numbers: not full means room for one more.
    pub looks_full_sound : IsRing n r q → looks_full k r ≡ false → r.tail < r.cached_head + 2 ^ k
    unfolding looks_full sub64
    looks_full_sound v e = ground (arith, v.extent, v.lagging, v.countable)

    -- A test that says full after the reload means that the ring holds its capacity.
    pub full_after_reload : IsRing n r q → looks_full k (reload_head r) ≡ true → length q ≡ 2 ^ k
    unfolding looks_full sub64 reload_head
    full_after_reload v e = ground (arith, v.extent, v.lagging, v.countable, v.within)

    pub looks_empty_sound : IsRing n r q → looks_empty r ≡ false → r.head < r.cached_tail
    unfolding looks_empty
    looks_empty_sound v e = ground (arith, v.ahead)

    pub reload_head-IsRing : IsRing n r q → IsRing n (reload_head r) q
    unfolding reload_head
    reload_head-IsRing v = record {
      stored = v.stored;
      extent = v.extent;
      lagging = omega arith;
      within = omega (arith, v.within, v.lagging);
      ahead = v.ahead;
      known = v.known;
      countable = v.countable;
    }

    pub reload_tail-IsRing : IsRing n r q → IsRing n (reload_tail r) q
    unfolding reload_tail
    reload_tail-IsRing v = record {
      stored = v.stored;
      extent = v.extent;
      lagging = v.lagging;
      within = v.within;
      ahead = omega (arith, v.extent);
      known = omega arith;
      countable = v.countable;
    }

    pub store_item-IsRing :
        (x : A) → r.tail < r.cached_head + 2 ^ k → IsRing n r q → IsRing n (store_item k x r) q
    unfolding store_item
    store_item-IsRing x room v = record {
      stored =
          Stored-update r.buffer r.head r.tail x q (omega (arith, v.extent))
            (omega (arith, v.lagging)) v.stored;
      extent = v.extent;
      lagging = v.lagging;
      within = v.within;
      ahead = v.ahead;
      known = v.known;
      countable = v.countable;
    }

  pub publish-IsRing :
      (n : ℕ) (r : SpscRingBuffer A) (q : List A) (x : A)
      → r.tail < r.cached_head + 2 ^ k
      → r.buffer (slot k r.tail) ≡ x
      → IsRing (suc n) r q
      → IsRing n (publish r) (q ++ (x ∷ []))
  unfolding publish
  publish-IsRing n r q x room e v =
      let counted = inc64_exact r.tail (omega (arith, v.countable)) in
      record {
        stored =
            Stored-append r.buffer r.head q x v.stored
              (ap (λ (i : ℕ). r.buffer (slot k i)) (sym v.extent) ∙ e);
        extent = omega (arith, counted, v.extent, length-append q (x ∷ []));
        lagging = v.lagging;
        within = omega (arith, counted);
        ahead = v.ahead;
        known = omega (arith, counted, v.known);
        countable = omega (arith, counted, v.countable);
      }

  -- A reader that has seen something ahead finds the oldest item, and takes it.
  pub record Taken (n : ℕ) (r : SpscRingBuffer A) (q : List A) : Type ℓ where
    pub oldest : A
    pub others : List A
    pub at_front : q ≡ oldest ∷ others
    pub loaded : load_item k r ≡ oldest
    pub released : IsRing n (release r) others

  pub release-IsRing :
      (n : ℕ) (r : SpscRingBuffer A) (q : List A)
      → r.head < r.cached_tail
      → IsRing n r q
      → Taken n r q
  unfolding release load_item
  release-IsRing n r [] some_ahead v = absurd (omega (arith, v.extent, v.known))
  release-IsRing n r (x ∷ q) some_ahead v =
      let counted = inc64_exact r.head (omega (arith, v.extent, v.countable)) in
      record {
        oldest = x;
        others = q;
        at_front = refl;
        loaded = v.stored.0;
        released = record {
          stored = rw counted v.stored.1;
          extent = omega (arith, counted, v.extent);
          lagging = omega (arith, counted, v.lagging);
          within = v.within;
          ahead = omega (arith, counted);
          known = v.known;
          countable = v.countable;
        };
      }

  pub IsRing-fewer : (n : ℕ) (r : SpscRingBuffer A) (q : List A) → IsRing (suc n) r q → IsRing n r q
  IsRing-fewer n r q v = record {
    stored = v.stored;
    extent = v.extent;
    lagging = v.lagging;
    within = v.within;
    ahead = v.ahead;
    known = v.known;
    countable = omega (arith, v.countable);
  }
