-- ===== src/OrderBook/Pool/Nodes.antt =====
-- The pool hands out a node that is not in use, whatever the free list holds, and takes a node back.
use burst_resilient_feed_han.Base.{
  ℕ, zero, suc, ◌+◌, ◌*◌, ◌≤◌, ◌<◌, ◌≡◌, ◌≢◌, refl, sym, ap, subst, Option, none, some, List, [],
  ◌∷◌, ◌++◌, arith,
}
use burst_resilient_feed_han.OrderBook.Types.{Order, OrderPool, update, update_self}
use burst_resilient_feed_han.OrderBook.Pool.{init, grow, ensure, alloc, release}
use burst_resilient_feed_han.OrderBook.Links.Chain.{NotIn, Distinct}
use burst_resilient_feed_han.OrderBook.Links.Fifo.{NotIn-without}
use burst_resilient_feed_han.OrderBook.Pool.FreeList.{
  Free, AllBelow, Apart, IsPool, Free-update, threaded, grow-IsPool,
}

AllBelow-snoc : (n a : ℕ) (l : List ℕ) → a < n → AllBelow n l → AllBelow n (l ++ (a ∷ []))
AllBelow-snoc n a [] h b = (h, tt)
AllBelow-snoc n a (c ∷ l) h b = (b.0, AllBelow-snoc n a l h b.1)

pub NotIn-snoc : (a b : ℕ) (l : List ℕ) → a ≢ b → NotIn a l → NotIn a (l ++ (b ∷ []))
NotIn-snoc a b [] ne h = (ne, tt)
NotIn-snoc a b (c ∷ l) ne h = (h.0, NotIn-snoc a b l ne h.1)

Apart-snoc : (a : ℕ) (f l : List ℕ) → NotIn a f → Apart f l → Apart f (l ++ (a ∷ []))
Apart-snoc a [] l n p = tt
Apart-snoc a (c ∷ f) l n p = (NotIn-snoc c a l (λ e. n.0 (sym e)) p.0, Apart-snoc a f l n.1 p.1)

AllBelow-without : (n : ℕ) (q r : List ℕ) (o : ℕ) → AllBelow n (q ++ (o ∷ r)) → AllBelow n (q ++ r)
AllBelow-without n [] r o b = b.1
AllBelow-without n (c ∷ q) r o b = (b.0, AllBelow-without n q r o b.1)

AllBelow-middle : (n : ℕ) (q r : List ℕ) (o : ℕ) → AllBelow n (q ++ (o ∷ r)) → o < n
AllBelow-middle n [] r o b = b.0
AllBelow-middle n (c ∷ q) r o b = AllBelow-middle n q r o b.1

Apart-without : (f q r : List ℕ) (o : ℕ) → Apart f (q ++ (o ∷ r)) → Apart f (q ++ r)
Apart-without [] q r o p = tt
Apart-without (c ∷ f) q r o p = (NotIn-without c q r o p.0, Apart-without f q r o p.1)

NotIn-middle : (a : ℕ) (q r : List ℕ) (o : ℕ) → NotIn a (q ++ (o ∷ r)) → a ≢ o
NotIn-middle a [] r o h = h.0
NotIn-middle a (c ∷ q) r o h = NotIn-middle a q r o h.1

Apart-middle : (f q r : List ℕ) (o : ℕ) → Apart f (q ++ (o ∷ r)) → NotIn o f
Apart-middle [] q r o p = tt
Apart-middle (c ∷ f) q r o p = ((λ e. NotIn-middle c q r o p.0 (sym e)), Apart-middle f q r o p.1)

-- A node that occurs once in a list is in neither part around it.
pub Distinct-middle : (q r : List ℕ) (o : ℕ) → Distinct (q ++ (o ∷ r)) → NotIn o (q ++ r)
Distinct-middle [] r o d = d.0
Distinct-middle (c ∷ q) r o d = ((λ e. NotIn-middle c q r o d.0 (sym e)), Distinct-middle q r o d.1)

threaded-cons : (n a b : ℕ) (f : List ℕ) → (c : ℕ) × (g : List ℕ) × (threaded n a (b ∷ f) ≡ c ∷ g)
threaded-cons zero a b f = (b, f, refl)
threaded-cons (suc n) a b f = threaded-cons n (a + 1) a (b ∷ f)

threaded-some : (n a : ℕ) (f : List ℕ) → 1 ≤ n → (c : ℕ) × (g : List ℕ) × (threaded n a f ≡ c ∷ g)
threaded-some zero a f h = absurd (omega arith)
threaded-some (suc n) a f h = threaded-cons n (a + 1) a f

ensure-none : (p : OrderPool) → p.free_head ≡ none → ensure p ≡ grow p
unfolding ensure
ensure-none p e = ap (λ x. elim x [ none ↦ grow p | some _ ↦ p ]) e

ensure-some : (p : OrderPool) (a : ℕ) → p.free_head ≡ some a → ensure p ≡ p
unfolding ensure
ensure-some p a e = ap (λ x. elim x [ none ↦ grow p | some _ ↦ p ]) e

-- A call of `alloc` on a pool whose free list starts at `o` after `ensure`.
alloc-given :
    (p : OrderPool) (o : ℕ)
    → (ensure p).free_head ≡ some o
    → alloc p ≡ (some o, record (ensure p) { free_head = ((ensure p).node o).next })
unfolding alloc
alloc-given p o e =
    ap
      (λ x. elim x [
        | none ↦ (none, ensure p)
        | some a ↦ (some a, record (ensure p) { free_head = ((ensure p).node a).next })
      ])
      e

-- After `ensure` there is a node to hand out.
ensure-IsPool :
    (p : OrderPool) (live free : List ℕ)
    → IsPool p live free
    → (o : ℕ) × (f : List ℕ) × IsPool (ensure p) live (o ∷ f)
ensure-IsPool p live [] v =
    let (c, g, e) = threaded-some p.chunk (p.chunks * p.chunk) [] v.roomy in
    (
      c,
      g,
      subst (λ x. IsPool x live (c ∷ g)) (sym (ensure-none p v.listed))
          (subst (IsPool (grow p) live) e (grow-IsPool p live [] v)),
    )
ensure-IsPool p live (o ∷ f) v =
    (o, f, subst (λ x. IsPool x live (o ∷ f)) (sym (ensure-some p o v.listed.0)) v)

-- What `alloc` promises to those who hold the nodes `live`.
pub record Handed (p : OrderPool) (live : List ℕ) : Type 0 where
  pub o : ℕ
  pub free : List ℕ
  pub given : (alloc p).0 ≡ some o
  pub fresh : NotIn o live
  pub pool : IsPool (alloc p).1 (live ++ (o ∷ [])) free

-- On a pool whose free list and nodes in use lie apart within its chunks: `alloc` always hands out
-- a node, one that is in no other hands, growing the pool when its free list is empty; the pool
-- then counts the node as in use.
pub alloc-IsPool : (p : OrderPool) (live free : List ℕ) → IsPool p live free → Handed p live
alloc-IsPool p live free v =
    let (o, f, w) = ensure-IsPool p live free v in
    record {
      o = o;
      free = f;
      given = ap (λ x. x.0) (alloc-given p o w.listed.0);
      fresh = w.apart.0;
      pool =
          subst (λ (x : Option ℕ × OrderPool). IsPool x.1 (live ++ (o ∷ [])) f)
            (sym (alloc-given p o w.listed.0))
            (record {
              listed = w.listed.1;
              distinct = w.distinct.1;
              apart = Apart-snoc o f live w.distinct.0 w.apart.1;
              free_within = w.free_within.1;
              live_within = AllBelow-snoc _ o live w.free_within.0 w.live_within;
              roomy = w.roomy;
            });
    }

-- On a pool whose free list and nodes in use lie apart within its chunks, with the nodes in use
-- distinct: one of them that is given back is in use no more and heads the free list, which still
-- lies apart from the nodes in use.
pub release-IsPool :
    (p : OrderPool) (q r free : List ℕ) (o : ℕ)
    → IsPool p (q ++ (o ∷ r)) free
    → Distinct (q ++ (o ∷ r))
    → IsPool (release o p) (q ++ r) (o ∷ free)
unfolding release
release-IsPool p q r free o v d =
    let off = Apart-middle free q r o v.apart in
    let w = record (p.node o) { next = p.free_head } in
    record {
      listed = (
        refl,
        subst (λ (x : Order). Free (update p.node o w) x.next free) (sym (update_self p.node o w))
            (Free-update p.node o w p.free_head free off v.listed),
      );
      distinct = (off, v.distinct);
      apart = (Distinct-middle q r o d, Apart-without free q r o v.apart);
      free_within = (AllBelow-middle _ q r o v.live_within, v.free_within);
      live_within = AllBelow-without _ q r o v.live_within;
      roomy = v.roomy;
    }

-- The constructor's pool is empty.
pub init-IsPool : (c : ℕ) → IsPool (init c) [] []
unfolding init
init-IsPool c = record {
  listed = refl;
  distinct = tt;
  apart = tt;
  free_within = tt;
  live_within = tt;
  roomy = ground arith;
}
