-- ===== src/OrderBook/Spec/Entries.antt =====
-- The operations of Spec on the entries of the live orders.
use burst_resilient_feed_han.Base.{
  ℕ, ◌≡◌, refl, ap, none, some, List, [], ◌∷◌, ◌++◌, ◌==◌, arith, inl, inr, Bool-cases, true, false,
}
use burst_resilient_feed_han.OrderBook.Types.{Order}
use burst_resilient_feed_han.OrderBook.Links.Chain.{NotIn, Distinct, NotIn-append}
use burst_resilient_feed_han.OrderBook.Links.Fifo.{Entry, entry}
use burst_resilient_feed_han.OrderBook.Pool.Nodes.{Distinct-middle}
use burst_resilient_feed_han.OrderBook.Heap.{refs, find_ref, entries}
use burst_resilient_feed_han.OrderBook.Heap.Lists.{refs-append}
use burst_resilient_feed_han.OrderBook.Spec.{lookup, remove, reduce, lose}

module _ (node : ℕ → Order) where
  pub lookup-none :
      (r : ℕ) (l : List ℕ) → find_ref node r l ≡ none → lookup r (entries node l) ≡ none
  unfolding lookup
  lookup-none r [] e = refl
  lookup-none r (o ∷ l) e = ground (arith, lookup-none r l)

  pub lookup-some :
      (r o : ℕ) (l : List ℕ)
      → find_ref node r l ≡ some o
      → lookup r (entries node l) ≡ some (entry (node o))
  unfolding lookup
  lookup-some r o [] e = absurd (ground arith)
  lookup-some r o (a ∷ l) e = elim (Bool-cases ((node a).order_ref == r)) [
    | inl t ↦
        let here : a ≡ o = ground (arith, t) in rw t (ap (λ (x : ℕ). some (entry (node x))) here)
    | inr f ↦ rw f (lookup-some r o l (ground (arith, f)))
  ]

  -- The order stands once among the references.
  pub first_of :
      (before after : List ℕ) (o : ℕ)
      → Distinct (refs node (before ++ (o ∷ after)))
      → NotIn (node o).order_ref (refs node before)
  first_of before after o d =
      (NotIn-append (node o).order_ref (refs node before) (refs node after) (
        Distinct-middle (refs node before) (refs node after) (node o).order_ref
          (rw (refs-append node before (o ∷ after)) at d))).0

  pub remove-middle :
      (before after : List ℕ) (o : ℕ)
      → NotIn (node o).order_ref (refs node before)
      → remove (node o).order_ref (entries node (before ++ (o ∷ after)))
        ≡ entries node (before ++ after)
  unfolding remove
  remove-middle [] after o h =
      let here : ((node o).order_ref == (node o).order_ref) ≡ true = ground arith in rw here
  remove-middle (a ∷ before) after o h =
      let off : ((node a).order_ref == (node o).order_ref) ≡ false = ground (arith, h.0) in
      rw off (ap (λ l. entry (node a) ∷ l) (remove-middle before after o h.1))

  pub reduce-middle :
      (shares : ℕ) (before after : List ℕ) (o : ℕ)
      → NotIn (node o).order_ref (refs node before)
      → reduce (node o).order_ref shares (entries node (before ++ (o ∷ after)))
        ≡ entries node before ++ lose shares (entry (node o)) (entries node after)
  unfolding reduce
  reduce-middle shares [] after o h =
      let here : ((node o).order_ref == (node o).order_ref) ≡ true = ground arith in rw here refl
  reduce-middle shares (a ∷ before) after o h =
      let off : ((node a).order_ref == (node o).order_ref) ≡ false = ground (arith, h.0) in
      rw off (ap (λ l. entry (node a) ∷ l) (reduce-middle shares before after o h.1))

pub remove-absent : (r : ℕ) (es : List Entry) → lookup r es ≡ none → remove r es ≡ es
unfolding lookup remove
remove-absent r [] e = refl
remove-absent r (x ∷ es) e = ground (arith, remove-absent r es)

pub reduce-absent : (r shares : ℕ) (es : List Entry) → lookup r es ≡ none → reduce r shares es ≡ es
unfolding lookup reduce
reduce-absent r shares [] e = refl
reduce-absent r shares (x ∷ es) e = ground (arith, reduce-absent r shares es)
