-- ===== src/OrderBook/Heap/Frame.antt =====
-- A level's queue is untouched by what happens at other levels and by the growth of the pool.
use burst_resilient_feed_han.Base.{
  ℕ, ◌*◌, ◌<◌, ◌≡◌, ◌≢◌, refl, sym, ap, subst, ◌∙◌, Option, none, some, List, [], ◌∷◌, ◌++◌, arith,
  ◌==◌, inl, inr, Bool-cases, Option-cases,
}
use burst_resilient_feed_han.OrderBook.Types.{Order, PriceLevel, OrderPool, update, update-ne}
use burst_resilient_feed_han.OrderBook.Pool.{alloc, ensure, grow}
use burst_resilient_feed_han.OrderBook.Pool.FreeList.{AllBelow, Apart, Free, IsPool, node-thread}
use burst_resilient_feed_han.OrderBook.Links.{set_next, set_prev, link_back, unlink}
use burst_resilient_feed_han.OrderBook.Links.Chain.{
  Chain, NotIn, Outside, last_of, first, Chain-update, Chain-set_next, Chain-set_prev,
}
use burst_resilient_feed_han.OrderBook.Links.Fifo.{IsFifo, entry}
use burst_resilient_feed_han.OrderBook.Heap.{orders_at}
use burst_resilient_feed_han.OrderBook.Heap.Lists.{SameEntries, NotIn-other}

-- Two memories agree on the nodes of a list.
abbrev pub SameNodes : (ℕ → Order) → (ℕ → Order) → List ℕ → Type 0
SameNodes node node' [] = Unit {0}
SameNodes node node' (o ∷ l) = (node' o ≡ node o) × SameNodes node node' l

pub SameNodes-refl : (node : ℕ → Order) (l : List ℕ) → SameNodes node node l
SameNodes-refl node [] = tt
SameNodes-refl node (o ∷ l) = (refl, SameNodes-refl node l)

pub SameNodes-trans :
    (node mid node' : ℕ → Order) (l : List ℕ)
    → SameNodes node mid l
    → SameNodes mid node' l
    → SameNodes node node' l
SameNodes-trans node mid node' [] p q = tt
SameNodes-trans node mid node' (o ∷ l) p q = (q.0 ∙ p.0, SameNodes-trans node mid node' l p.1 q.1)

module _ (node node' : ℕ → Order) where
  pub SameNodes-SameEntries : (l : List ℕ) → SameNodes node node' l → SameEntries node node' l
  SameNodes-SameEntries [] s = tt
  SameNodes-SameEntries (o ∷ l) s = (ap entry s.0, SameNodes-SameEntries l s.1)

  pub SameNodes-at :
      (i : ℕ) (l : List ℕ) → SameNodes node node' l → SameNodes node node' (orders_at node i l)
  SameNodes-at i [] s = tt
  SameNodes-at i (o ∷ l) s = elim (Bool-cases ((node o).level_idx == i)) [
    | inl t ↦ rw t (s.0, SameNodes-at i l s.1)
    | inr f ↦ rw f (SameNodes-at i l s.1)
  ]

  Chain-same :
      (p : Option ℕ) (q : List ℕ) (z : Option ℕ)
      → SameNodes node node' q
      → Chain node p q z
      → Chain node' p q z
  Chain-same p [] z s c = tt
  Chain-same p (a ∷ q) z s c = (
    ap (λ (x : Order). x.prev) s.0 ∙ c.0,
    ap (λ (x : Order). x.next) s.0 ∙ c.1,
    Chain-same (some a) q z s.1 c.2,
  )

  pub IsFifo-same :
      (lvl : PriceLevel) (q : List ℕ)
      → SameNodes node node' q
      → IsFifo node lvl q
      → IsFifo node' lvl q
  IsFifo-same lvl q s v = record {
    chained = Chain-same none q none s v.chained;
    front = v.front;
    back = v.back;
  }

-- The nodes in use are as they were after `alloc`.
node-ensure : (p : OrderPool) (a : ℕ) → a < p.chunks * p.chunk → (ensure p).node a ≡ p.node a
unfolding ensure grow
node-ensure p a h = elim (Option-cases p.free_head) [
  | inl e ↦
      ap (λ (x : Option ℕ). (elim x as (λ _. OrderPool) [ none ↦ grow p | some _ ↦ p ]).node a) e
      ∙ node-thread p.chunk (p.chunks * p.chunk) p a h
  | inr (o, e) ↦
      ap (λ (x : Option ℕ). (elim x as (λ _. OrderPool) [ none ↦ grow p | some _ ↦ p ]).node a) e
]

node-alloc : (p : OrderPool) (a : ℕ) → (alloc p).1.node a ≡ (ensure p).node a
unfolding alloc
node-alloc p a = ground arith

pub SameNodes-alloc :
    (p : OrderPool) (l : List ℕ)
    → AllBelow (p.chunks * p.chunk) l
    → SameNodes p.node (alloc p).1.node l
SameNodes-alloc p [] b = tt
SameNodes-alloc p (a ∷ l) b = (node-alloc p a ∙ node-ensure p a b.0, SameNodes-alloc p l b.1)

pub IsFifo-update :
    (node : ℕ → Order) (o : ℕ) (v : Order) (lvl : PriceLevel) (q : List ℕ)
    → NotIn o q
    → IsFifo node lvl q
    → IsFifo (update node o v) lvl q
IsFifo-update node o v lvl q n w = record {
  chained = Chain-update node o v none q none n w.chained;
  front = w.front;
  back = w.back;
}

-- Linking a node at another level, none of whose nodes is in the queue.
pub IsFifo-link_back :
    (node : ℕ → Order) (other lvl : PriceLevel) (o : ℕ) (q : List ℕ)
    → NotIn o q
    → Outside other.tail q
    → IsFifo node lvl q
    → IsFifo (link_back other o node).1 lvl q
unfolding link_back
IsFifo-link_back node other lvl o q n out w =
    let linked = record (node o) { prev = other.tail; next = none } in
    record {
      chained =
          Chain-set_next (update node o linked) other.tail (some o) none q none out
            (Chain-update node o linked none q none n w.chained);
      front = w.front;
      back = w.back;
    }

pub IsFifo-unlink :
    (node : ℕ → Order) (other lvl : PriceLevel) (o : ℕ) (q : List ℕ)
    → Outside (node o).prev q
    → Outside (node o).next q
    → IsFifo node lvl q
    → IsFifo (unlink other o node).1 lvl q
unfolding unlink
IsFifo-unlink node other lvl o q out_prev out_next w = record {
  chained =
      Chain-set_prev (set_next (node o).prev (node o).next node) (node o).next (node o).prev none q
        none out_next
        (Chain-set_next node (node o).prev (node o).next none q none out_prev w.chained);
  front = w.front;
  back = w.back;
}

-- A pointer into a list that shares nothing with another leads to none of the other.
pub last_of-Apart :
    (q x : List ℕ) (p : Option ℕ) → Apart q x → Outside p x → Outside (last_of p q) x
last_of-Apart [] x p a h = h
last_of-Apart (o ∷ q) x p a h = last_of-Apart q x (some o) a.1 a.0

pub first-Apart : (q x : List ℕ) → Apart q x → Outside (first q none) x
first-Apart [] x a = tt
first-Apart (o ∷ q) x a = a.0

pub Apart-split :
    (q r x : List ℕ) (o : ℕ) → Apart (q ++ (o ∷ r)) x → Apart q x × NotIn o x × Apart r x
Apart-split [] r x o a = (tt, a.0, a.1)
Apart-split (c ∷ q) r x o a = let (l, n, m) = Apart-split q r x o a.1 in ((a.0, l), n, m)

Apart-nil : (l : List ℕ) → Apart l []
Apart-nil [] = tt
Apart-nil (a ∷ l) = (tt, Apart-nil l)

Apart-grow : (c : ℕ) (f l : List ℕ) → NotIn c l → Apart l f → Apart l (c ∷ f)
Apart-grow c f [] n a = tt
Apart-grow c f (x ∷ l) n a = (((λ e. n.0 (sym e)), a.0), Apart-grow c f l n.1 a.1)

pub Apart-sym : (f l : List ℕ) → Apart f l → Apart l f
Apart-sym [] l a = Apart-nil l
Apart-sym (c ∷ f) l a = Apart-grow c f l a.0 (Apart-sym f l a.1)

pub Apart-orders_at :
    (node : ℕ → Order) (i : ℕ) (l x : List ℕ) → Apart l x → Apart (orders_at node i l) x
Apart-orders_at node i [] x a = tt
Apart-orders_at node i (o ∷ l) x a = elim (Bool-cases ((node o).level_idx == i)) [
  | inl t ↦ rw t (a.0, Apart-orders_at node i l x a.1)
  | inr f ↦ rw f (Apart-orders_at node i l x a.1)
]

-- Two levels share no order.
pub Apart-levels :
    (node : ℕ → Order) (i j : ℕ) (l live : List ℕ)
    → i ≢ j
    → Apart (orders_at node i l) (orders_at node j live)
Apart-levels node i j [] live ne = tt
Apart-levels node i j (o ∷ l) live ne = elim (Bool-cases ((node o).level_idx == i)) [
  | inl t ↦
      rw t (
        NotIn-other node j o live (λ e. ne (ground (arith, t, e))),
        Apart-levels node i j l live ne,
      )
  | inr f ↦ rw f (Apart-levels node i j l live ne)
]

-- The free list is untouched by writes to nodes that are not on it.
pub SameNodes-update :
    (node : ℕ → Order) (o : ℕ) (v : Order) (f : List ℕ)
    → NotIn o f
    → SameNodes node (update node o v) f
SameNodes-update node o v [] h = tt
SameNodes-update node o v (a ∷ f) h =
    (update-ne node o a v (λ e. h.0 (sym e)), SameNodes-update node o v f h.1)

pub SameNodes-set_next :
    (node : ℕ → Order) (p v : Option ℕ) (f : List ℕ)
    → Outside p f
    → SameNodes node (set_next p v node) f
unfolding set_next
SameNodes-set_next node none v f h = SameNodes-refl node f
SameNodes-set_next node (some p) v f h = SameNodes-update node p _ f h

pub SameNodes-set_prev :
    (node : ℕ → Order) (p v : Option ℕ) (f : List ℕ)
    → Outside p f
    → SameNodes node (set_prev p v node) f
unfolding set_prev
SameNodes-set_prev node none v f h = SameNodes-refl node f
SameNodes-set_prev node (some p) v f h = SameNodes-update node p _ f h

Free-same :
    (node node' : ℕ → Order) (h : Option ℕ) (f : List ℕ)
    → SameNodes node node' f
    → Free node h f
    → Free node' h f
Free-same node node' h [] s c = c
Free-same node node' h (a ∷ f) s c = (
  c.0,
  subst (λ (x : Order). Free node' x.next f) (sym s.0)
      (Free-same node node' (node a).next f s.1 c.1),
)

pub IsPool-same :
    (p : OrderPool) (node' : ℕ → Order) (live free : List ℕ)
    → SameNodes p.node node' free
    → IsPool p live free
    → IsPool (record p { node = node' }) live free
IsPool-same p node' live free s v = record {
  listed = Free-same p.node node' p.free_head free s v.listed;
  distinct = v.distinct;
  apart = v.apart;
  free_within = v.free_within;
  live_within = v.live_within;
  roomy = v.roomy;
}
