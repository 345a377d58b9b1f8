-- ===== src/OrderBook/Heap/Lists.antt =====
-- How the lists of Heap change with the list of live orders and with the nodes.
use burst_resilient_feed_han.Base.{
  ℕ, ◌+◌, ◌*◌, ◌^◌, ◌≤◌, ◌≡◌, ◌≢◌, refl, ap, ◌∙◌, List, [], ◌∷◌, ◌++◌, ◌==◌, length, inl, inr,
  arith, Bool-cases,
}
use burst_resilient_feed_han.OrderBook.Types.{Order, update}
use burst_resilient_feed_han.OrderBook.Links.Chain.{NotIn, Distinct}
use burst_resilient_feed_han.OrderBook.Links.Fifo.{entry, Entry}
use burst_resilient_feed_han.OrderBook.Heap.{orders_at, total, refs, find_ref, AllSmall, entries}

-- Two memories agree about what is no link, on the nodes of a list.
abbrev pub SameEntries : (ℕ → Order) → (ℕ → Order) → List ℕ → Type 0
SameEntries node node' [] = Unit {0}
SameEntries node node' (o ∷ l) = (entry (node' o) ≡ entry (node o)) × SameEntries node node' l

pub SameEntries-all :
    (node node' : ℕ → Order) (l : List ℕ)
    → ((a : ℕ) → entry (node' a) ≡ entry (node a))
    → SameEntries node node' l
SameEntries-all node node' [] h = tt
SameEntries-all node node' (o ∷ l) h = (h o, SameEntries-all node node' l h)

pub SameEntries-update :
    (node : ℕ → Order) (o : ℕ) (v : Order) (l : List ℕ)
    → NotIn o l
    → SameEntries node (update node o v) l
SameEntries-update node o v [] h = tt
SameEntries-update node o v (a ∷ l) h = (ground (arith, h.0), SameEntries-update node o v l h.1)

pub SameEntries-trans :
    (node mid node' : ℕ → Order) (l : List ℕ)
    → SameEntries node mid l
    → SameEntries mid node' l
    → SameEntries node node' l
SameEntries-trans node mid node' [] p q = tt
SameEntries-trans node mid node' (o ∷ l) p q =
    (q.0 ∙ p.0, SameEntries-trans node mid node' l p.1 q.1)

module _ (node node' : ℕ → Order) where
  pub orders_at-same :
      (i : ℕ) (l : List ℕ) → SameEntries node node' l → orders_at node' i l ≡ orders_at node i l
  orders_at-same i [] s = refl
  orders_at-same i (o ∷ l) s =
      let e : (node' o).level_idx ≡ (node o).level_idx = ap (λ (x : Entry). x.level_idx) s.0 in
      rw (e, orders_at-same i l s.1)

  pub refs-same : (l : List ℕ) → SameEntries node node' l → refs node' l ≡ refs node l
  refs-same [] s = refl
  refs-same (o ∷ l) s =
      let e : (node' o).order_ref ≡ (node o).order_ref = ap (λ (x : Entry). x.order_ref) s.0 in
      rw (e, refs-same l s.1)

  pub find_ref-same :
      (r : ℕ) (l : List ℕ) → SameEntries node node' l → find_ref node' r l ≡ find_ref node r l
  find_ref-same r [] s = refl
  find_ref-same r (o ∷ l) s =
      let e : (node' o).order_ref ≡ (node o).order_ref = ap (λ (x : Entry). x.order_ref) s.0 in
      rw (e, find_ref-same r l s.1)

  pub AllSmall-same : (l : List ℕ) → SameEntries node node' l → AllSmall node l → AllSmall node' l
  AllSmall-same [] s a = tt
  AllSmall-same (o ∷ l) s a =
      let e : (node' o).size ≡ (node o).size = ap (λ (x : Entry). x.size) s.0 in
      (rw e a.0, AllSmall-same l s.1 a.1)

  pub entries-same : (l : List ℕ) → SameEntries node node' l → entries node' l ≡ entries node l
  entries-same [] s = refl
  entries-same (o ∷ l) s = rw (s.0, entries-same l s.1)

  -- The same at the orders of one level.
  pub SameEntries-at :
      (i : ℕ) (l : List ℕ) → SameEntries node node' l → SameEntries node node' (orders_at node i l)
  SameEntries-at i [] s = tt
  SameEntries-at i (o ∷ l) s = elim (Bool-cases ((node o).level_idx == i)) [
    | inl t ↦ rw t (s.0, SameEntries-at i l s.1)
    | inr f ↦ rw f (SameEntries-at i l s.1)
  ]

  pub total-same : (l : List ℕ) → SameEntries node node' l → total node' l ≡ total node l
  total-same [] s = refl
  total-same (o ∷ l) s =
      let e : (node' o).size ≡ (node o).size = ap (λ (x : Entry). x.size) s.0 in
      omega (arith, e, total-same l s.1)

module _ (node : ℕ → Order) where
  pub orders_at-append :
      (i : ℕ) (l m : List ℕ) → orders_at node i (l ++ m) ≡ orders_at node i l ++ orders_at node i m
  orders_at-append i [] m = refl
  orders_at-append i (o ∷ l) m = elim (Bool-cases ((node o).level_idx == i)) [
    | inl t ↦ rw (t, orders_at-append i l m)
    | inr f ↦ rw (f, orders_at-append i l m)
  ]

  pub total-append : (l m : List ℕ) → total node (l ++ m) ≡ total node l + total node m
  total-append [] m = omega arith
  total-append (o ∷ l) m = omega (arith, total-append l m)

  pub refs-append : (l m : List ℕ) → refs node (l ++ m) ≡ refs node l ++ refs node m
  refs-append [] m = refl
  refs-append (o ∷ l) m = rw (refs-append l m)

  pub entries-append : (l m : List ℕ) → entries node (l ++ m) ≡ entries node l ++ entries node m
  entries-append [] m = refl
  entries-append (o ∷ l) m = rw (entries-append l m)

  pub AllSmall-append : (l m : List ℕ) → AllSmall node l → AllSmall node m → AllSmall node (l ++ m)
  AllSmall-append [] m a c = c
  AllSmall-append (o ∷ l) m a c = (a.0, AllSmall-append l m a.1 c)

  pub AllSmall-without :
      (l m : List ℕ) (o : ℕ) → AllSmall node (l ++ (o ∷ m)) → AllSmall node (l ++ m)
  AllSmall-without [] m o a = a.1
  AllSmall-without (x ∷ l) m o a = (a.0, AllSmall-without l m o a.1)

  -- Sums fit 64 bits as long as there are fewer than 2^32 orders.
  pub total-le : (l : List ℕ) → AllSmall node l → total node l ≤ length l * 2 ^ 32
  total-le [] a = omega arith
  total-le (o ∷ l) a = omega (arith, a.0, total-le l a.1)

  pub AllSmall-at : (i : ℕ) (l : List ℕ) → AllSmall node l → AllSmall node (orders_at node i l)
  AllSmall-at i [] a = tt
  AllSmall-at i (o ∷ l) a = elim (Bool-cases ((node o).level_idx == i)) [
    | inl t ↦ rw t (a.0, AllSmall-at i l a.1)
    | inr f ↦ rw f (AllSmall-at i l a.1)
  ]

  pub length-orders_at : (i : ℕ) (l : List ℕ) → length (orders_at node i l) ≤ length l
  length-orders_at i [] = omega arith
  length-orders_at i (o ∷ l) = ground (arith, length-orders_at i l)

  pub NotIn-orders_at : (i a : ℕ) (l : List ℕ) → NotIn a l → NotIn a (orders_at node i l)
  NotIn-orders_at i a [] h = tt
  NotIn-orders_at i a (o ∷ l) h = elim (Bool-cases ((node o).level_idx == i)) [
    | inl t ↦ rw t (h.0, NotIn-orders_at i a l h.1)
    | inr f ↦ rw f (NotIn-orders_at i a l h.1)
  ]

  pub Distinct-orders_at : (i : ℕ) (l : List ℕ) → Distinct l → Distinct (orders_at node i l)
  Distinct-orders_at i [] d = tt
  Distinct-orders_at i (o ∷ l) d = elim (Bool-cases ((node o).level_idx == i)) [
    | inl t ↦ rw t (NotIn-orders_at i o l d.0, Distinct-orders_at i l d.1)
    | inr f ↦ rw f (Distinct-orders_at i l d.1)
  ]

  -- A node of another level is not among the orders of this one.
  pub NotIn-other : (i a : ℕ) (l : List ℕ) → (node a).level_idx ≢ i → NotIn a (orders_at node i l)
  NotIn-other i a [] h = tt
  NotIn-other i a (o ∷ l) h = elim (Bool-cases ((node o).level_idx == i)) [
    | inl t ↦ rw t ((λ e. h (ground (arith, e))), NotIn-other i a l h)
    | inr f ↦ rw f (NotIn-other i a l h)
  ]
