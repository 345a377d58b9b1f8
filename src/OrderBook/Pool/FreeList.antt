-- ===== src/OrderBook/Pool/FreeList.antt =====
-- The pool hands out a node that is not in use, and takes it back: the free list and the nodes in use
-- share nothing, and all lie within the chunks.
use burst_resilient_feed_han.Base.{
  ℕ, zero, suc, ◌+◌, ◌*◌, ◌≤◌, ◌<◌, ◌≡◌, refl, sym, subst, ◌∙◌, Option, none, some, List, [], ◌∷◌,
  arith,
}
use burst_resilient_feed_han.OrderBook.Types.{Order, OrderPool, update, update_self, update-ne}
use burst_resilient_feed_han.OrderBook.Pool.{thread, grow}
use burst_resilient_feed_han.OrderBook.Links.Chain.{NotIn, Distinct}
use burst_resilient_feed_han.OrderBook.Links.Fifo.{entry}

-- The list from `h` on, through the `next` fields, is `f`.
abbrev pub Free : (ℕ → Order) → Option ℕ → List ℕ → Type 0
Free node h [] = h ≡ none
Free node h (a ∷ f) = (h ≡ some a) × Free node (node a).next f

abbrev pub AllBelow : ℕ → List ℕ → Type 0
AllBelow n [] = Unit {0}
AllBelow n (a ∷ l) = (a < n) × AllBelow n l

-- No address of the first list is in the second.
abbrev pub Apart : List ℕ → List ℕ → Type 0
Apart [] l = Unit {0}
Apart (a ∷ f) l = NotIn a l × Apart f l

pub record IsPool (p : OrderPool) (live free : List ℕ) : Type 0 where
  pub listed : Free p.node p.free_head free
  pub distinct : Distinct free
  pub apart : Apart free live
  pub free_within : AllBelow (p.chunks * p.chunk) free
  pub live_within : AllBelow (p.chunks * p.chunk) live
  pub roomy : 1 ≤ p.chunk

pub AllBelow-mono : (m n : ℕ) (l : List ℕ) → m ≤ n → AllBelow m l → AllBelow n l
AllBelow-mono m n [] h b = tt
AllBelow-mono m n (a ∷ l) h b = (omega arith, AllBelow-mono m n l h b.1)

pub AllBelow-NotIn : (n : ℕ) (l : List ℕ) → AllBelow n l → NotIn n l
AllBelow-NotIn n [] b = tt
AllBelow-NotIn n (a ∷ l) b = ((omega arith), AllBelow-NotIn n l b.1)

pub Free-update :
    (node : ℕ → Order) (o : ℕ) (v : Order) (h : Option ℕ) (f : List ℕ)
    → NotIn o f
    → Free node h f
    → Free (update node o v) h f
Free-update node o v h [] n c = c
Free-update node o v h (a ∷ f) n c =
    let same = update-ne node o a v (λ e. n.0 (sym e)) in
    (
      c.0,
      subst (λ (x : Order). Free (update node o v) x.next f) (sym same)
          (Free-update node o v (node a).next f n.1 c.1),
    )

-- The list after `n` slots from `a` on have gone to its front.
abbrev pub threaded : ℕ → ℕ → List ℕ → List ℕ
threaded zero a f = f
threaded (suc n) a f = threaded n (a + 1) (a ∷ f)

-- The first of the loop's rounds.
abbrev push_slot : ℕ → OrderPool → OrderPool
push_slot a p = record p {
  node = update p.node a (record (p.node a) { next = p.free_head });
  free_head = some a;
}

push_slot-Free :
    (a : ℕ) (p : OrderPool) (f : List ℕ)
    → NotIn a f
    → Free p.node p.free_head f
    → Free (push_slot a p).node (some a) (a ∷ f)
push_slot-Free a p f n c =
    let v = record (p.node a) { next = p.free_head } in
    (
      refl,
      subst (λ (x : Order). Free (update p.node a v) x.next f) (sym (update_self p.node a v))
          (Free-update p.node a v p.free_head f n c),
    )

thread-Free :
    (n a : ℕ) (p : OrderPool) (f : List ℕ)
    → AllBelow a f
    → Free p.node p.free_head f
    → Free (thread n a p).node (thread n a p).free_head (threaded n a f)
unfolding thread
thread-Free zero a p f b c = c
thread-Free (suc n) a p f b c =
    thread-Free n (a + 1) (push_slot a p) (a ∷ f)
      ((omega arith), AllBelow-mono a (a + 1) f (omega arith) b)
      (push_slot-Free a p f (AllBelow-NotIn a f b) c)

threaded-Distinct : (n a : ℕ) (f : List ℕ) → AllBelow a f → Distinct f → Distinct (threaded n a f)
threaded-Distinct zero a f b d = d
threaded-Distinct (suc n) a f b d =
    threaded-Distinct n (a + 1) (a ∷ f) ((omega arith), AllBelow-mono a (a + 1) f (omega arith) b)
      (AllBelow-NotIn a f b, d)

threaded-AllBelow :
    (n a m : ℕ) (f : List ℕ) → a + n ≤ m → AllBelow m f → AllBelow m (threaded n a f)
threaded-AllBelow zero a m f h b = b
threaded-AllBelow (suc n) a m f h b =
    threaded-AllBelow n (a + 1) m (a ∷ f) (omega arith) (omega arith, b)

threaded-Apart : (n a : ℕ) (f l : List ℕ) → AllBelow a l → Apart f l → Apart (threaded n a f) l
threaded-Apart zero a f l b p = p
threaded-Apart (suc n) a f l b p =
    threaded-Apart n (a + 1) (a ∷ f) l (AllBelow-mono a (a + 1) l (omega arith) b)
      (AllBelow-NotIn a l b, p)

-- The loop changes links only, and keeps the size of the pool.
entry-thread : (n a : ℕ) (p : OrderPool) (j : ℕ) → entry ((thread n a p).node j) ≡ entry (p.node j)
unfolding thread
entry-thread zero a p j = refl
entry-thread (suc n) a p j = entry-thread n (a + 1) (push_slot a p) j ∙ ground arith

pub node-thread : (n a : ℕ) (p : OrderPool) (j : ℕ) → j < a → (thread n a p).node j ≡ p.node j
unfolding thread
node-thread zero a p j h = refl
node-thread (suc n) a p j h =
    node-thread n (a + 1) (push_slot a p) j (omega arith) ∙ update-ne p.node a j _ (omega arith)

size-thread :
    (n a : ℕ) (p : OrderPool)
    → ((thread n a p).chunk ≡ p.chunk) × ((thread n a p).chunks ≡ p.chunks)
unfolding thread
size-thread zero a p = (refl, refl)
size-thread (suc n) a p = size-thread n (a + 1) (push_slot a p)

pub grow-IsPool :
    (p : OrderPool) (live free : List ℕ)
    → IsPool p live free
    → IsPool (grow p) live (threaded p.chunk (p.chunks * p.chunk) free)
unfolding grow
grow-IsPool p live free v =
    let base = p.chunks * p.chunk in
    let size = size-thread p.chunk base p in
    let more : base + p.chunk ≤ (p.chunks + 1) * (thread p.chunk base p).chunk =
      rw (size.0) (omega arith) in
    let grown : base ≤ (p.chunks + 1) * (thread p.chunk base p).chunk = omega arith in
    record {
      listed = thread-Free p.chunk base p free v.free_within v.listed;
      distinct = threaded-Distinct p.chunk base free v.free_within v.distinct;
      apart = threaded-Apart p.chunk base free live v.live_within v.apart;
      free_within =
          threaded-AllBelow p.chunk base _ free more
            (AllBelow-mono base _ free grown v.free_within);
      live_within = AllBelow-mono base _ live grown v.live_within;
      roomy = rw (size.0) v.roomy;
    }
