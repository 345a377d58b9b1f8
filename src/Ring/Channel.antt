-- ===== src/Ring/Channel.antt =====
-- SpscChannel of include/feedhandler/spsc_ring_buffer.hpp: the ring with a policy for when it is
-- full, and a count of what was dropped.
use burst_resilient_feed_han.Base.{
  ℕ, suc, ◌^◌, ◌<◌, ◌≡◌, refl, sym, ap, Bool, true, false, ◌||◌, Option, none, some, List, [], ◌∷◌,
  ◌++◌, length, if◌then◌else◌, arith,
}
use burst_resilient_feed_han.Base.Word.{inc64}
use burst_resilient_feed_han.Ring.{SpscRingBuffer, Backpressure, block, drop, push, pop}
use burst_resilient_feed_han.Ring.Slots.{pow_pos}
use burst_resilient_feed_han.Ring.Contents.{IsRing, IsRing-fewer}
use burst_resilient_feed_han.Ring.Queue.{
  entered, refused, Popped, oldest, nothing, push-Pushed, push-full, pop-Popped,
}

pub record SpscChannel {ℓ} (A : Type ℓ) : Type ℓ where
  pub policy : Backpressure
  pub ring : SpscRingBuffer A
  pub dropped : ℕ

-- Whether the consumer pops at all, where each entry says whether it pops before a try.
unfoldable pub has_pop : List Bool → Bool
has_pop [] = false
has_pop (pops ∷ acts) = pops || has_pop acts

module _ {ℓ} {A : Type ℓ} (k : ℕ) where
  -- `do cpu_relax(); while (!ring_.push(item));`: what the other thread does to the ring before
  -- each try is given. `none` is a loop that goes on.
  unfoldable pub spin :
      A
      → List (SpscRingBuffer A → SpscRingBuffer A)
      → SpscRingBuffer A
      → Option Bool × SpscRingBuffer A
  spin item [] r = (none, r)
  spin item (other ∷ others) r =
      let (done, r') = push k item (other r) in
      let rest = spin item others r' in if done then (some true, r') else rest

  unfoldable pub give_up :
      Backpressure
      → A
      → List (SpscRingBuffer A → SpscRingBuffer A)
      → SpscChannel A
      → Option Bool × SpscChannel A
  give_up block item others c = let (o, r) = spin item others c.ring in (o, record c { ring = r })
  give_up drop item others c = (some false, record c { dropped = inc64 c.dropped })

  unfoldable pub send :
      A → List (SpscRingBuffer A → SpscRingBuffer A) → SpscChannel A → Option Bool × SpscChannel A
  send item others c =
      let (done, r) = push k item c.ring in
      let d = record c { ring = r } in
      if done then (some true, d) else give_up c.policy item others d

  unfoldable pub receive : SpscChannel A → Option A × SpscChannel A
  receive c = let (out, r) = pop k c.ring in (out, record c { ring = r })

  -- Before a try, the consumer pops or does nothing.
  abbrev pub consumer : Bool → SpscRingBuffer A → SpscRingBuffer A
  consumer pops r = if pops then (pop k r).1 else r

  abbrev pub consumers : List Bool → List (SpscRingBuffer A → SpscRingBuffer A)
  consumers [] = []
  consumers (pops ∷ acts) = consumer pops ∷ consumers acts

  -- What the loop may answer on a full ring that holds `q`.
  pub data Spun (n : ℕ) (x : A) (q : List A) (acts : List Bool) (o : Option Bool)
      (r : SpscRingBuffer A) : Type ℓ where
    waited :
        (y : A) (rest : List A)
        → has_pop acts ≡ true
        → q ≡ y ∷ rest
        → o ≡ some true
        → IsRing k n r (rest ++ (x ∷ []))
        → Spun n x q acts o r
    waiting : has_pop acts ≡ false → o ≡ none → IsRing k n r q → Spun n x q acts o r

  -- What `send` may answer on a channel that holds `q`.
  pub data Sent (n : ℕ) (x : A) (q : List A) (acts : List Bool) (c : SpscChannel A)
      (o : Option Bool) (d : SpscChannel A) : Type ℓ where
    delivered :
        length q < 2 ^ k
        → o ≡ some true
        → d.dropped ≡ c.dropped
        → IsRing k n d.ring (q ++ (x ∷ []))
        → Sent n x q acts c o d
    counted :
        length q ≡ 2 ^ k
        → c.policy ≡ drop
        → o ≡ some false
        → d.dropped ≡ inc64 c.dropped
        → IsRing k n d.ring q
        → Sent n x q acts c o d
    blocked :
        length q ≡ 2 ^ k
        → c.policy ≡ block
        → d.dropped ≡ c.dropped
        → Spun n x q acts o d.ring
        → Sent n x q acts c o d

  -- The try after a pop gets in.
  Popped-Spun :
      (n : ℕ) (x : A) (q : List A) (acts : List Bool) (out : Option A) (r : SpscRingBuffer A)
      → length q ≡ 2 ^ k
      → Popped k (suc n) q out r
      → (push k x r).0 ≡ true × Spun n x q (true ∷ acts) (some true) (push k x r).1
  unfolding has_pop
  Popped-Spun n x q acts out r full (oldest y rest e o w) = elim (push-Pushed k n x rest r w) [
    | entered room t v ↦ (t, waited y rest refl e refl v)
    | refused still t v ↦ absurd (omega (arith, ap length e))
  ]
  Popped-Spun n x q acts out r full (nothing e o w) = absurd (omega (arith, ap length e, pow_pos k))

  Spun-later :
      (n : ℕ) (x : A) (q : List A) (acts : List Bool) (o : Option Bool) (r : SpscRingBuffer A)
      → Spun n x q acts o r
      → Spun n x q (false ∷ acts) o r
  unfolding has_pop
  Spun-later n x q acts o r (waited y rest h e a w) = waited y rest h e a w
  Spun-later n x q acts o r (waiting h a w) = waiting h a w

  spin-Spun :
      (n : ℕ) (x : A) (q : List A) (acts : List Bool) (r : SpscRingBuffer A)
      → length q ≡ 2 ^ k
      → IsRing k (suc n) r q
      → let (o, u) = spin x (consumers acts) r in Spun n x q acts o u
  unfolding spin has_pop
  spin-Spun n x q [] r full w = waiting refl refl (IsRing-fewer k n r q w)
  spin-Spun n x q (true ∷ acts) r full w =
      let p = pop k r in
      let (t, v) = Popped-Spun n x q acts p.0 p.1 full (pop-Popped k (suc n) q r w) in rw t v
  spin-Spun n x q (false ∷ acts) r full w =
      let (t, v) = push-full k (suc n) x q r full w in
      rw t (Spun-later n x q acts _ _ (spin-Spun n x q acts (push k x r).1 full v))

  give_up-Sent :
      (policy : Backpressure) (n : ℕ) (x : A) (q : List A) (acts : List Bool) (c : SpscChannel A)
      (r : SpscRingBuffer A)
      → policy ≡ c.policy
      → length q ≡ 2 ^ k
      → IsRing k (suc n) r q
      → let (o, d) = give_up policy x (consumers acts) (record c { ring = r }) in
        Sent n x q acts c o d
  unfolding give_up
  give_up-Sent block n x q acts c r e full w =
      blocked full (sym e) refl (spin-Spun n x q acts r full w)
  give_up-Sent drop n x q acts c r e full w =
      counted full (sym e) refl refl (IsRing-fewer k n r q w)

  -- On a channel that holds `q`, with an index to spare of the 64-bit ones, where the consumer pops
  -- or does nothing before each further try, in any order: if `q` is shorter than the capacity,
  -- `send` puts the item at the back and returns true. On a full ring, under Drop, it returns false,
  -- counts one more drop and leaves the items. On a full ring, under Block, it drops nothing: if the
  -- consumer pops at some time, however many tries fail before, it returns true and the item is at
  -- the back of what that pop left; if not, it has not returned and the ring holds `q`.
  pub send-Sent :
      (n : ℕ) (x : A) (q : List A) (acts : List Bool) (c : SpscChannel A)
      → IsRing k (suc n) c.ring q
      → let (o, d) = send x (consumers acts) c in Sent n x q acts c o d
  unfolding send
  send-Sent n x q acts c v = elim (push-Pushed k n x q c.ring v) [
    | entered room t w ↦ rw t (delivered room refl refl w)
    | refused full t w ↦ rw t (
        give_up-Sent c.policy n x q acts c (push k x c.ring).1 refl full
          (push-full k (suc n) x q c.ring full v).1)
  ]
