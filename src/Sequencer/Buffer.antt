-- ===== src/Sequencer/Buffer.antt =====
-- The reorder buffer of the sequencer: std::unordered_map as an association list.
use burst_resilient_feed_han.Base.{
  ℕ, ◌+◌, ◌≤◌, ◌<◌, ◌≡◌, refl, List, [], ◌∷◌, Bool, true, false, Option, none, some, ◌==◌,
  if◌then◌else◌, length, arith,
}
use burst_resilient_feed_han.Event.{MarketEvent}

abbrev pub ReorderBuffer : Type 0
ReorderBuffer = List (ℕ × MarketEvent)

abbrev pub is_empty : ReorderBuffer → Bool
is_empty [] = true
is_empty (_ ∷ _) = false

unfoldable pub find : ℕ → ReorderBuffer → Option MarketEvent
find k [] = none
find k ((j, v) ∷ m) = if j == k then some v else find k m

-- `emplace` leaves an entry that is there as it is.
unfoldable pub emplace : ℕ → MarketEvent → ReorderBuffer → ReorderBuffer
emplace k v [] = (k, v) ∷ []
emplace k v ((j, w) ∷ m) = if j == k then (j, w) ∷ m else (j, w) ∷ emplace k v m

unfoldable pub erase : ℕ → ReorderBuffer → ReorderBuffer
erase k [] = []
erase k ((j, w) ∷ m) = if j == k then m else (j, w) ∷ erase k m

-- Every key is at least `n`.
abbrev pub KeysFrom : ℕ → ReorderBuffer → Type 0
KeysFrom n [] = Unit {0}
KeysFrom n ((j, w) ∷ m) = (n ≤ j) × KeysFrom n m

-- No key occurs twice.
abbrev pub Distinct : ReorderBuffer → Type 0
Distinct [] = Unit {0}
Distinct ((j, w) ∷ m) = (find j m ≡ none) × Distinct m

pub find-emplace :
    (k j : ℕ) (v : MarketEvent) (m : ReorderBuffer)
    → find j (emplace k v m)
      ≡ (elim (find j m) [ some w ↦ some w | none ↦ if k == j then some v else none ])
unfolding find emplace
find-emplace k j v [] = ground arith
find-emplace k j v ((i, w) ∷ m) = ground (arith, find-emplace k j v m)

pub find-erase :
    (k j : ℕ) (m : ReorderBuffer)
    → Distinct m
    → find j (erase k m) ≡ (if k == j then none else find j m)
unfolding find erase
find-erase k j [] d = ground arith
find-erase k j ((i, w) ∷ m) d = ground (arith, find-erase k j m d.1)

pub emplace-Distinct :
    (k : ℕ) (v : MarketEvent) (m : ReorderBuffer) → Distinct m → Distinct (emplace k v m)
unfolding emplace find
emplace-Distinct k v [] d = (refl, tt)
emplace-Distinct k v ((i, w) ∷ m) d =
    ground (arith, emplace-Distinct k v m d.1, find-emplace k i v m)

pub erase-Distinct : (k : ℕ) (m : ReorderBuffer) → Distinct m → Distinct (erase k m)
unfolding erase
erase-Distinct k [] d = tt
erase-Distinct k ((i, w) ∷ m) d = ground (arith, erase-Distinct k m d.1, find-erase k i m d.1)

pub emplace-KeysFrom :
    (n k : ℕ) (v : MarketEvent) (m : ReorderBuffer)
    → n ≤ k
    → KeysFrom n m
    → KeysFrom n (emplace k v m)
unfolding emplace
emplace-KeysFrom n k v [] h f = (h, tt)
emplace-KeysFrom n k v ((i, w) ∷ m) h f = ground (arith, emplace-KeysFrom n k v m h f.1)

pub erase-KeysFrom : (n k : ℕ) (m : ReorderBuffer) → KeysFrom n m → KeysFrom n (erase k m)
unfolding erase
erase-KeysFrom n k [] f = tt
erase-KeysFrom n k ((i, w) ∷ m) f = ground (arith, erase-KeysFrom n k m f.1)

-- With `n` itself absent, every key is above it.
pub KeysFrom-suc : (n : ℕ) (m : ReorderBuffer) → KeysFrom n m → find n m ≡ none → KeysFrom (n + 1) m
unfolding find
KeysFrom-suc n [] f e = tt
KeysFrom-suc n ((i, w) ∷ m) f e = ground (arith, KeysFrom-suc n m f.1)

pub find_below : (n k : ℕ) (m : ReorderBuffer) → KeysFrom n m → k < n → find k m ≡ none
unfolding find
find_below n k [] f h = refl
find_below n k ((i, w) ∷ m) f h = ground (arith, find_below n k m f.1)

pub length-emplace :
    (k : ℕ) (v : MarketEvent) (m : ReorderBuffer) → length (emplace k v m) ≤ length m + 1
unfolding emplace
length-emplace k v [] = omega arith
length-emplace k v ((i, w) ∷ m) = ground (arith, length-emplace k v m)

pub length-erase :
    (k : ℕ) (m : ReorderBuffer) {v : MarketEvent}
    → find k m ≡ some v
    → length (erase k m) + 1 ≡ length m
unfolding find erase
length-erase k [] e = absurd (ground arith)
length-erase k ((i, w) ∷ m) {v} e = ground (arith, length-erase k m {v = v})

pub find-is_empty :
    (k : ℕ) (m : ReorderBuffer) {v : MarketEvent} → find k m ≡ some v → is_empty m ≡ false
unfolding find
find-is_empty k [] e = absurd (ground arith)
find-is_empty k (x ∷ m) e = refl

pub emplace-is_empty :
    (k : ℕ) (v : MarketEvent) (m : ReorderBuffer) → is_empty (emplace k v m) ≡ false
unfolding emplace
emplace-is_empty k v [] = refl
emplace-is_empty k v ((j, w) ∷ m) = ground arith
