-- ===== src/Publisher.antt =====
-- include/feedhandler/publisher.hpp: changes of the top of book.
use burst_resilient_feed_han.Base.{
  ℕ, ◌≡◌, refl, sym, ap, inl, inr, Bool-cases, Bool, true, false, not, ◌&&◌, ◌||◌, ◌==◌,
  if◌then◌else◌, arith,
}
use burst_resilient_feed_han.Base.Int.{ℤ, pos, negsuc, eqb_ℤ, eqb_ℤ_self}
use burst_resilient_feed_han.Base.Word.{inc64}
use burst_resilient_feed_han.OrderBook.Types.{OrderBook, BookLevel, no_level}
use burst_resilient_feed_han.OrderBook.View.{best_bid, best_ask}

pub record Publisher : Type 0 where
  pub updates : ℕ
  pub l1_deltas : ℕ
  pub last_bid : BookLevel
  pub last_ask : BookLevel

unfoldable pub init : Publisher
init = record { updates = 0; l1_deltas = 0; last_bid = no_level; last_ask = no_level }

-- `==` of two bools.
abbrev eqb : Bool → Bool → Bool
eqb true b = b
eqb false b = not b

-- The order count does not matter.
unfoldable pub same : BookLevel → BookLevel → Bool
same a b =
    eqb a.valid b.valid && eqb_ℤ a.price_ticks b.price_ticks && a.aggregate_size == b.aggregate_size

unfoldable pub on_update : OrderBook → Publisher → Bool × Publisher
on_update book p =
    let bid = best_bid book in
    let ask = best_ask book in
    let counted = record p { updates = inc64 p.updates } in
    let changed = not (same bid p.last_bid) || not (same ask p.last_ask) in
    (
      changed,
      if changed
          then record counted { l1_deltas = inc64 p.l1_deltas; last_bid = bid; last_ask = ask }
          else counted,
    )

-- The flag, the price and the size of two levels are equal.
abbrev pub Alike : BookLevel → BookLevel → Type 0
Alike a b =
    (a.valid ≡ b.valid) × (a.price_ticks ≡ b.price_ticks) × (a.aggregate_size ≡ b.aggregate_size)

eqb_sound : (a b : Bool) → eqb a b ≡ true → a ≡ b
eqb_sound true true e = refl
eqb_sound true false e = absurd (ground arith)
eqb_sound false true e = absurd (ground arith)
eqb_sound false false e = refl

eqb_ℤ_sound : (a b : ℤ) → eqb_ℤ a b ≡ true → a ≡ b
eqb_ℤ_sound (pos a) (pos b) e = ap pos (ground (arith, e))
eqb_ℤ_sound (negsuc a) (negsuc b) e = ap negsuc (ground (arith, e))
eqb_ℤ_sound (pos a) (negsuc b) e = absurd (ground arith)
eqb_ℤ_sound (negsuc a) (pos b) e = absurd (ground arith)

same_sound : (a b : BookLevel) → same a b ≡ true → Alike b a
unfolding same
same_sound a b e = (
  sym (eqb_sound a.valid b.valid (ground (arith, e))),
  sym (eqb_ℤ_sound a.price_ticks b.price_ticks (ground (arith, e))),
  ground (arith, e),
)

eqb_self : (a : Bool) → eqb a a ≡ true
eqb_self true = refl
eqb_self false = refl

same_complete : (a b : BookLevel) → Alike b a → same a b ≡ true
unfolding same
same_complete a b (v, p, s) =
    let size : (a.aggregate_size == b.aggregate_size) ≡ true = ground (arith, s) in
    rw (v, p, eqb_self a.valid, eqb_ℤ_self a.price_ticks, size) refl

Alike-refl : (a : BookLevel) → Alike a a
Alike-refl a = (refl, refl, refl)

module _ (book : OrderBook) where
  -- The retained levels are those of the book.
  abbrev pub Kept : Publisher → Type 0
  Kept q = Alike q.last_bid (best_bid book) × Alike q.last_ask (best_ask book)

  -- What an update of `p` may report: no move, when the retained levels were the book's already, or a move,
  -- when they were not.
  pub data Reported (p : Publisher) (changed : Bool) (q : Publisher) : Type 0 where
    unmoved : changed ≡ false → Kept p → q.l1_deltas ≡ p.l1_deltas → Reported p changed q
    moved : changed ≡ true → ¬ Kept p → q.l1_deltas ≡ inc64 p.l1_deltas → Reported p changed q

  on_update-Reported : (p : Publisher) → let (changed, q) = on_update book p in Reported p changed q
  unfolding on_update
  on_update-Reported p =
      let bid = best_bid book in
      let ask = best_ask book in
      elim (Bool-cases (same bid p.last_bid)) [
        | inr f ↦
            rw f (moved refl (λ kept. ground (arith, same_complete bid p.last_bid kept.0, f)) refl)
        | inl t ↦ elim (Bool-cases (same ask p.last_ask)) [
          | inr f ↦
              rw (t, f)
                (moved refl (λ kept. ground (arith, same_complete ask p.last_ask kept.1, f)) refl)
          | inl u ↦
              rw (t, u)
                (unmoved refl (same_sound bid p.last_bid t, same_sound ask p.last_ask u) refl)
        ]
      ]

  on_update-Kept : (p : Publisher) → Kept (on_update book p).1
  unfolding on_update
  on_update-Kept p =
      let bid = best_bid book in
      let ask = best_ask book in
      elim (Bool-cases (same bid p.last_bid)) [
        | inr f ↦ rw f (Alike-refl bid, Alike-refl ask)
        | inl t ↦ elim (Bool-cases (same ask p.last_ask)) [
          | inr f ↦ rw (t, f) (Alike-refl bid, Alike-refl ask)
          | inl u ↦ rw (t, u) (same_sound bid p.last_bid t, same_sound ask p.last_ask u)
        ]
      ]

  on_update-updates : (p : Publisher) → (on_update book p).1.updates ≡ inc64 p.updates
  unfolding on_update
  on_update-updates p = ground arith

Reported-again :
    (book : OrderBook) (q : Publisher) (again : Bool) (u : Publisher)
    → Kept book q
    → Reported book q again u
    → (again ≡ false) × (u.l1_deltas ≡ q.l1_deltas)
Reported-again book q again u kept (unmoved e _ same) = (e, same)
Reported-again book q again u kept (moved _ ne _) = absurd (ne kept)

-- An update counts one update. If the flag, the price and the size of both retained levels are those
-- of the book's best bid and ask, it answers false and counts no delta; if not, it answers true and
-- counts one delta. In both cases the retained levels have the book's flags, prices and sizes
-- afterwards, and a second update with the same book answers false and counts no delta.
pub on_update-tracks :
    (book : OrderBook) (p : Publisher)
    → let (changed, q) = on_update book p in
      let (again, u) = on_update book q in
      (q.updates ≡ inc64 p.updates)
      × Reported book p changed q
      × Kept book q
      × (again ≡ false)
      × (u.l1_deltas ≡ q.l1_deltas)
on_update-tracks book p =
    let (changed, q) = on_update book p in
    let (again, u) = on_update book q in
    let kept = on_update-Kept book p in
    let (a, b) = Reported-again book q again u kept (on_update-Reported book q) in
    (on_update-updates book p, on_update-Reported book p, kept, a, b)
