-- ===== src/OrderBook/Links/Chain.antt =====
-- Doubly linked chains of nodes: what a write to a node's links does to a chain.
use burst_resilient_feed_han.Base.{
  ℕ, ◌≡◌, ◌≢◌, refl, sym, ap, ◌∙◌, Option, none, some, List, [], ◌∷◌, ◌++◌, arith,
}
use burst_resilient_feed_han.OrderBook.Types.{Order, update}
use burst_resilient_feed_han.OrderBook.Links.{set_next, set_prev}

-- The first of a list of addresses, or what comes behind it; the last, or what came before it.
abbrev pub first : List ℕ → Option ℕ → Option ℕ
first [] z = z
first (a ∷ q) z = some a

abbrev pub last_of : Option ℕ → List ℕ → Option ℕ
last_of p [] = p
last_of p (a ∷ q) = last_of (some a) q

-- The nodes at `q` are linked both ways in this order, between `p` and `z`.
abbrev pub Chain : (ℕ → Order) → Option ℕ → List ℕ → Option ℕ → Type 0
Chain node p [] z = Unit {0}
Chain node p (a ∷ q) z = ((node a).prev ≡ p) × ((node a).next ≡ first q z) × Chain node (some a) q z

abbrev pub NotIn : ℕ → List ℕ → Type 0
NotIn a [] = Unit {0}
NotIn a (b ∷ l) = (a ≢ b) × NotIn a l

abbrev pub Distinct : List ℕ → Type 0
Distinct [] = Unit {0}
Distinct (a ∷ l) = NotIn a l × Distinct l

-- A pointer that leads to no node of the list.
abbrev pub Outside : Option ℕ → List ℕ → Type 0
Outside none l = Unit {0}
Outside (some a) l = NotIn a l

pub first-append : (q r : List ℕ) (z : Option ℕ) → first (q ++ r) z ≡ first q (first r z)
first-append [] r z = refl
first-append (a ∷ q) r z = refl

pub last_of-append : (p : Option ℕ) (q r : List ℕ) → last_of p (q ++ r) ≡ last_of (last_of p q) r
last_of-append p [] r = refl
last_of-append p (a ∷ q) r = last_of-append (some a) q r

pub last_of-some : (a : ℕ) (q : List ℕ) → (b : ℕ) × (last_of (some a) q ≡ some b)
last_of-some a [] = (a, refl)
last_of-some a (b ∷ q) = last_of-some b q

pub NotIn-append : (a : ℕ) (q r : List ℕ) → NotIn a (q ++ r) → NotIn a q × NotIn a r
NotIn-append a [] r h = (tt, h)
NotIn-append a (b ∷ q) r h = let (x, y) = NotIn-append a q r h.1 in ((h.0, x), y)

-- Two halves of a list without repeats share nothing.
pub Distinct-left : (q r : List ℕ) → Distinct (q ++ r) → Distinct q
Distinct-left [] r d = tt
Distinct-left (a ∷ q) r d = ((NotIn-append a q r d.0).0, Distinct-left q r d.1)

pub Distinct-right : (q r : List ℕ) → Distinct (q ++ r) → Distinct r
Distinct-right [] r d = d
Distinct-right (a ∷ q) r d = Distinct-right q r d.1

pub last_of-Outside :
    (p : Option ℕ) (q r : List ℕ) → Outside p r → Distinct (q ++ r) → Outside (last_of p q) r
last_of-Outside p [] r h d = h
last_of-Outside p (a ∷ q) r h d = last_of-Outside (some a) q r ((NotIn-append a q r d.0).1) d.1

pub first-Outside : (q r : List ℕ) → Distinct (q ++ r) → Outside (first r none) q
first-Outside q [] d = tt
first-Outside [] (b ∷ r) d = tt
first-Outside (a ∷ q) (b ∷ r) d =
    ((λ e. (NotIn-append a q (b ∷ r) d.0).1.0 (sym e)), first-Outside q (b ∷ r) d.1)

pub Chain-split :
    (node : ℕ → Order) (p : Option ℕ) (q r : List ℕ) (z : Option ℕ)
    → Chain node p (q ++ r) z
    → Chain node p q (first r z) × Chain node (last_of p q) r z
Chain-split node p [] r z c = (tt, c)
Chain-split node p (a ∷ q) r z c =
    let (x, y) = Chain-split node (some a) q r z c.2 in ((c.0, c.1 ∙ first-append q r z, x), y)

pub Chain-join :
    (node : ℕ → Order) (p : Option ℕ) (q r : List ℕ) (z : Option ℕ)
    → Chain node p q (first r z)
    → Chain node (last_of p q) r z
    → Chain node p (q ++ r) z
Chain-join node p [] r z x y = y
Chain-join node p (a ∷ q) r z x y =
    (x.0, x.1 ∙ sym (first-append q r z), Chain-join node (some a) q r z x.2 y)

-- A write to a node off the chain changes nothing of it.
pub Chain-update :
    (node : ℕ → Order) (o : ℕ) (v : Order) (p : Option ℕ) (q : List ℕ) (z : Option ℕ)
    → NotIn o q
    → Chain node p q z
    → Chain (update node o v) p q z
Chain-update node o v p [] z h c = tt
Chain-update node o v p (a ∷ q) z h c =
    (ground (arith, h.0), ground (arith, h.0), Chain-update node o v (some a) q z h.1 c.2)

pub Chain-set_next :
    (node : ℕ → Order) (o v : Option ℕ) (p : Option ℕ) (q : List ℕ) (z : Option ℕ)
    → Outside o q
    → Chain node p q z
    → Chain (set_next o v node) p q z
unfolding set_next
Chain-set_next node none v p q z h c = c
Chain-set_next node (some o) v p q z h c = Chain-update node o _ p q z h c

pub Chain-set_prev :
    (node : ℕ → Order) (o v : Option ℕ) (p : Option ℕ) (q : List ℕ) (z : Option ℕ)
    → Outside o q
    → Chain node p q z
    → Chain (set_prev o v node) p q z
unfolding set_prev
Chain-set_prev node none v p q z h c = c
Chain-set_prev node (some o) v p q z h c = Chain-update node o _ p q z h c

last-ne-head : (a b : ℕ) (q : List ℕ) → NotIn a (b ∷ q) → last_of (some b) q ≢ some a
last-ne-head a b [] h e = h.0 (ground arith)
last-ne-head a b (c ∷ q) h e = last-ne-head a c q h.1 e

pub set_next-ne :
    (node : ℕ → Order) (o v : Option ℕ) (a : ℕ) → o ≢ some a → set_next o v node a ≡ node a
unfolding set_next
set_next-ne node none v a ne = refl
set_next-ne node (some o) v a ne = ground arith

pub last_of-ne : (p : Option ℕ) (q : List ℕ) (o : ℕ) → p ≢ some o → NotIn o q → last_of p q ≢ some o
last_of-ne p [] o ne h = ne
last_of-ne p (a ∷ q) o ne h = last_of-ne (some a) q o (λ e. h.0 (ground arith)) h.1

-- The last node of a chain is made to point elsewhere.
pub Chain-set_last :
    (node : ℕ → Order) (p v : Option ℕ) (q : List ℕ) (z : Option ℕ)
    → Distinct q
    → Chain node p q z
    → Chain (set_next (last_of p q) v node) p q v
unfolding set_next
Chain-set_last node p v [] z d c = tt
Chain-set_last node p v (a ∷ []) z d c = (ground arith, ground arith, tt)
Chain-set_last node p v (a ∷ b ∷ q) z d c =
    let keep = set_next-ne node (last_of (some b) q) v a (last-ne-head a b q d.0) in
    (
      ap (λ (n : Order). n.prev) keep ∙ c.0,
      ap (λ (n : Order). n.next) keep ∙ c.1,
      Chain-set_last node (some a) v (b ∷ q) z d.1 c.2,
    )

-- The first node of a chain is made to point back elsewhere.
pub Chain-set_first :
    (node : ℕ → Order) (p v : Option ℕ) (q : List ℕ) (z : Option ℕ)
    → Distinct q
    → Chain node p q z
    → Chain (set_prev (first q none) v node) v q z
unfolding set_prev
Chain-set_first node p v [] z d c = tt
Chain-set_first node p v (a ∷ q) z d c =
    (ground arith, ground arith, Chain-update node a _ (some a) q z d.0 c.2)
