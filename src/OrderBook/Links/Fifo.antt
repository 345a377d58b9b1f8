-- ===== src/OrderBook/Links/Fifo.antt =====
-- A level whose head and tail hold a chain is a FIFO: `link_back` appends and `unlink` takes out.
use burst_resilient_feed_han.Base.{
  ℕ, ◌≡◌, ◌≢◌, refl, sym, ap, subst, ◌∙◌, Option, none, some, List, [], ◌∷◌, ◌++◌, arith,
}
use burst_resilient_feed_han.Base.Int.{ℤ}
use burst_resilient_feed_han.Event.{Side}
use burst_resilient_feed_han.OrderBook.Types.{Order, PriceLevel, update, update_self}
use burst_resilient_feed_han.OrderBook.Links.{set_next, set_prev, link_back, unlink}
use burst_resilient_feed_han.OrderBook.Links.Chain.{
  first, last_of, Chain, NotIn, Distinct, Outside, last_of-append, last_of-some, Distinct-left,
  Distinct-right, last_of-Outside, first-Outside, Chain-split, Chain-join, Chain-update, last_of-ne,
  set_next-ne, Chain-set_next, Chain-set_prev, Chain-set_last, Chain-set_first,
}

-- The level's list is `q`, oldest first: the nodes are linked both ways, and head and tail are its
-- ends.
pub record IsFifo (node : ℕ → Order) (lvl : PriceLevel) (q : List ℕ) : Type 0 where
  pub chained : Chain node none q none
  pub front : lvl.head ≡ first q none
  pub back : lvl.tail ≡ last_of none q

-- What of an order is no link.
pub record Entry : Type 0 where
  pub order_ref : ℕ
  pub price_ticks : ℤ
  pub size : ℕ
  pub level_idx : ℕ
  pub side : Side

abbrev pub entry : Order → Entry
entry o = record {
  order_ref = o.order_ref;
  price_ticks = o.price_ticks;
  size = o.size;
  level_idx = o.level_idx;
  side = o.side;
}

entry-set_next :
    (o v : Option ℕ) (node : ℕ → Order) (a : ℕ) → entry (set_next o v node a) ≡ entry (node a)
unfolding set_next
entry-set_next none v node a = refl
entry-set_next (some o) v node a = ground arith

entry-set_prev :
    (o v : Option ℕ) (node : ℕ → Order) (a : ℕ) → entry (set_prev o v node a) ≡ entry (node a)
unfolding set_prev
entry-set_prev none v node a = refl
entry-set_prev (some o) v node a = ground arith

-- Linking and unlinking change links only.
pub entry-unlink :
    (lvl : PriceLevel) (o : ℕ) (node : ℕ → Order) (a : ℕ)
    → entry ((unlink lvl o node).1 a) ≡ entry (node a)
unfolding unlink
entry-unlink lvl o node a = entry-set_prev _ _ _ a ∙ entry-set_next _ _ node a

pub entry-link_back :
    (lvl : PriceLevel) (o : ℕ) (node : ℕ → Order) (a : ℕ)
    → entry ((link_back lvl o node).1 a) ≡ entry (node a)
unfolding link_back
entry-link_back lvl o node a = entry-set_next lvl.tail (some o) _ a ∙ ground arith

append_node :
    (node : ℕ → Order) (q : List ℕ) (o : ℕ) (t : Option ℕ)
    → Chain node none q none
    → Distinct q
    → NotIn o q
    → t ≡ last_of none q
    → Chain
        (set_next t (some o) (update node o (record (node o) { prev = t; next = none })))
        none
        (q ++ (o ∷ []))
        none
append_node node q o t c d n e =
    let linked = update node o (record (node o) { prev = t; next = none }) in
    let old : Chain linked none q none = Chain-update node o _ none q none n c in
    let apart : t ≢ some o = λ h. last_of-ne none q o (λ z. cc) n (sym e ∙ h) in
    let new = set_next-ne linked t (some o) o apart in
    let at_o = update_self node o (record (node o) { prev = t; next = none }) in
    Chain-join (set_next t (some o) linked) none q (o ∷ []) none
      (subst (λ x. Chain (set_next x (some o) linked) none q (some o)) (sym e)
        (Chain-set_last linked none (some o) q none d old))
      (ap (λ (x : Order). x.prev) (new ∙ at_o) ∙ e, ap (λ (x : Order). x.next) (new ∙ at_o), tt)

appended_front :
    (q : List ℕ) (o : ℕ) (h t : Option ℕ)
    → h ≡ first q none
    → t ≡ last_of none q
    → (elim t [ none ↦ some o | some _ ↦ h ]) ≡ first (q ++ (o ∷ [])) none
appended_front [] o h t eh et = rw et
appended_front (a ∷ q) o h t eh et = let (b, e) = last_of-some a q in rw (et, e) eh

-- On a level whose links hold a list of distinct nodes: linking a node that is not among them leaves a
-- level whose links hold these and, behind every older one, the new node.
pub link_back-IsFifo :
    (node : ℕ → Order) (lvl : PriceLevel) (q : List ℕ) (o : ℕ)
    → IsFifo node lvl q
    → Distinct q
    → NotIn o q
    → let (lvl', node') = link_back lvl o node in IsFifo node' lvl' (q ++ (o ∷ []))
unfolding link_back
link_back-IsFifo node lvl q o v d n = record {
  chained = append_node node q o lvl.tail v.chained d n v.back;
  front = appended_front q o lvl.head lvl.tail v.front v.back;
  back = sym (last_of-append none q (o ∷ []));
}

remove_node :
    (node : ℕ → Order) (q r : List ℕ) (o : ℕ) (pv nx : Option ℕ)
    → Chain node none q (some o)
    → Chain node (some o) r none
    → Distinct (q ++ r)
    → pv ≡ last_of none q
    → nx ≡ first r none
    → Chain (set_prev nx pv (set_next pv nx node)) none (q ++ r) none
remove_node node q r o pv nx cq cr d ep en =
    let mid = set_next pv nx node in
    let left : Chain mid none q nx =
      subst (λ x. Chain (set_next x nx node) none q nx) (sym ep)
        (Chain-set_last node none nx q (some o) (Distinct-left q r d) cq) in
    let off : Outside pv r = rw ep (last_of-Outside none q r tt d) in
    let right : Chain mid (some o) r none = Chain-set_next node pv nx (some o) r none off cr in
    let clear : Outside nx q = rw en (first-Outside q r d) in
    Chain-join (set_prev nx pv mid) none q r none
      (subst (λ x. Chain (set_prev nx pv mid) none q x) en
        (Chain-set_prev mid nx pv none q nx clear left))
      (subst (λ x. Chain (set_prev nx pv mid) x r none) ep
        (subst (λ x. Chain (set_prev x pv mid) pv r none) (sym en)
          (Chain-set_first mid (some o) pv r none (Distinct-right q r d) right)))

removed_front :
    (q r : List ℕ) (o : ℕ) (h pv nx : Option ℕ)
    → h ≡ first (q ++ (o ∷ r)) none
    → pv ≡ last_of none q
    → nx ≡ first r none
    → (elim pv [ none ↦ nx | some _ ↦ h ]) ≡ first (q ++ r) none
removed_front [] r o h pv nx eh ep en = rw ep en
removed_front (a ∷ q) r o h pv nx eh ep en = let (b, e) = last_of-some a q in rw (ep, e) eh

removed_back :
    (q r : List ℕ) (o : ℕ) (t pv nx : Option ℕ)
    → t ≡ last_of none (q ++ (o ∷ r))
    → pv ≡ last_of none q
    → nx ≡ first r none
    → (elim nx [ none ↦ pv | some _ ↦ t ]) ≡ last_of none (q ++ r)
removed_back q [] o t pv nx et ep en = rw en (ep ∙ sym (last_of-append none q []))
removed_back q (b ∷ r) o t pv nx et ep en =
    rw en (et ∙ last_of-append none q (o ∷ b ∷ r) ∙ sym (last_of-append none q (b ∷ r)))

pub NotIn-without : (a : ℕ) (q r : List ℕ) (o : ℕ) → NotIn a (q ++ (o ∷ r)) → NotIn a (q ++ r)
NotIn-without a [] r o h = h.1
NotIn-without a (b ∷ q) r o h = (h.0, NotIn-without a q r o h.1)

pub Distinct-without : (q r : List ℕ) (o : ℕ) → Distinct (q ++ (o ∷ r)) → Distinct (q ++ r)
Distinct-without [] r o d = d.1
Distinct-without (a ∷ q) r o d = (NotIn-without a q r o d.0, Distinct-without q r o d.1)

-- On a level whose links hold a list of distinct nodes: taking one of them out leaves a level whose
-- links hold the others, in their order.
pub unlink-IsFifo :
    (node : ℕ → Order) (lvl : PriceLevel) (q r : List ℕ) (o : ℕ)
    → IsFifo node lvl (q ++ (o ∷ r))
    → Distinct (q ++ (o ∷ r))
    → let (lvl', node') = unlink lvl o node in IsFifo node' lvl' (q ++ r)
unfolding unlink
unlink-IsFifo node lvl q r o v d =
    let (left, mid) = Chain-split node none q (o ∷ r) none v.chained in
    record {
      chained =
          remove_node node q r o (node o).prev (node o).next left mid.2 (Distinct-without q r o d)
            mid.0 mid.1;
      front = removed_front q r o lvl.head (node o).prev (node o).next v.front mid.0 mid.1;
      back = removed_back q r o lvl.tail (node o).prev (node o).next v.back mid.0 mid.1;
    }
