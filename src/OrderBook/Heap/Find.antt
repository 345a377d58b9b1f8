-- ===== src/OrderBook/Heap/Find.antt =====
-- The live order with a given reference: where it stands, and what a new order or a removal does to the
-- search.
use burst_resilient_feed_han.Base.{
  ℕ, ◌≡◌, ◌≢◌, refl, sym, ap, none, some, List, [], ◌∷◌, ◌++◌, ◌==◌, inl, inr, arith, Bool-cases,
}
use burst_resilient_feed_han.OrderBook.Types.{Order}
use burst_resilient_feed_han.OrderBook.Links.Chain.{NotIn, Distinct}
use burst_resilient_feed_han.OrderBook.Pool.Nodes.{Distinct-middle, NotIn-snoc}
use burst_resilient_feed_han.OrderBook.Heap.{refs, find_ref}
use burst_resilient_feed_han.OrderBook.Heap.Lists.{refs-append}

pub Distinct-snoc : (l : List ℕ) (a : ℕ) → NotIn a l → Distinct l → Distinct (l ++ (a ∷ []))
Distinct-snoc [] a n d = (tt, tt)
Distinct-snoc (x ∷ l) a n d = (NotIn-snoc x a l (λ e. n.0 (sym e)) d.0, Distinct-snoc l a n.1 d.1)

module _ (node : ℕ → Order) where
  -- The order stands between those before it and those after it.
  pub record Found (r o : ℕ) (live : List ℕ) : Type 0 where
    pub before : List ℕ
    pub after : List ℕ
    pub split : live ≡ before ++ (o ∷ after)
    pub same_ref : (node o).order_ref ≡ r

  pub find_ref-Found : (r o : ℕ) (live : List ℕ) → find_ref node r live ≡ some o → Found r o live
  find_ref-Found r o [] e = absurd (ground arith)
  find_ref-Found r o (a ∷ live) e = elim (Bool-cases ((node a).order_ref == r)) [
    | inl t ↦
        let here : a ≡ o = ground (arith, t) in
        record {
          before = [];
          after = live;
          split = ap (λ (x : ℕ). x ∷ live) here;
          same_ref = rw (← here) (ground (arith, t));
        }
    | inr f ↦
        let v = find_ref-Found r o live (ground (arith, f)) in
        record {
          before = a ∷ v.before;
          after = v.after;
          split = ap (λ l. a ∷ l) v.split;
          same_ref = v.same_ref;
        }
  ]

  pub find_ref-none : (r : ℕ) (l : List ℕ) → NotIn r (refs node l) → find_ref node r l ≡ none
  find_ref-none r [] h = refl
  find_ref-none r (o ∷ l) h = ground (arith, h.0, find_ref-none r l h.1)

  pub NotIn-refs : (r : ℕ) (l : List ℕ) → find_ref node r l ≡ none → NotIn r (refs node l)
  NotIn-refs r [] e = tt
  NotIn-refs r (o ∷ l) e = elim (Bool-cases ((node o).order_ref == r)) [
    | inl t ↦ absurd (ground (arith, t))
    | inr f ↦ ((λ x. absurd (ground (arith, f, x))), NotIn-refs r l (ground (arith, f)))
  ]

  pub find_ref-snoc_ne :
      (r o : ℕ) (l : List ℕ)
      → (node o).order_ref ≢ r
      → find_ref node r (l ++ (o ∷ [])) ≡ find_ref node r l
  find_ref-snoc_ne r o [] ne = ground arith
  find_ref-snoc_ne r o (a ∷ l) ne = ground (arith, find_ref-snoc_ne r o l ne)

  pub find_ref-snoc_self :
      (o : ℕ) (l : List ℕ)
      → NotIn (node o).order_ref (refs node l)
      → find_ref node (node o).order_ref (l ++ (o ∷ [])) ≡ some o
  find_ref-snoc_self o [] h = ground arith
  find_ref-snoc_self o (a ∷ l) h = ground (arith, h.0, find_ref-snoc_self o l h.1)

  pub find_ref-without_ne :
      (r o : ℕ) (l m : List ℕ)
      → (node o).order_ref ≢ r
      → find_ref node r (l ++ (o ∷ m)) ≡ find_ref node r (l ++ m)
  find_ref-without_ne r o [] m ne = ground arith
  find_ref-without_ne r o (a ∷ l) m ne = ground (arith, find_ref-without_ne r o l m ne)

  pub find_ref-without_self :
      (o : ℕ) (l m : List ℕ)
      → Distinct (refs node (l ++ (o ∷ m)))
      → find_ref node (node o).order_ref (l ++ m) ≡ none
  find_ref-without_self o l m d = find_ref-none (node o).order_ref (l ++ m) (
      rw (refs-append node l m) (
        Distinct-middle (refs node l) (refs node m) (node o).order_ref
          (rw (refs-append node l (o ∷ m)) at d)))
