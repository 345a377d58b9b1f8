-- ===== src/Base/Scan.antt =====
-- Linear scans over the indices below a bound: the highest and the lowest index that passes a test.
use Prim.Native.Nat.{ℕ, zero, suc, ◌+◌, ◌≤◌, ◌<◌}
use mathlib.Core.Path.{◌≡◌, refl, ap}
use mathlib.Core.Logic.{inl, inr}
use mathlib.Core.Bool.{Bool, true, false}
use mathlib.Core.Option.{Option, none, some}
use native.Mathlib.Decide.{dec_lt}
use native.Mathlib.Omega.{arith}
use burst_resilient_feed_han.Base.Tests.{if◌then◌else◌, Bool-cases}

-- From `n - 1` down to 0.
unfoldable pub highest : (ℕ → Bool) → ℕ → Option ℕ
highest p zero = none
highest p (suc n) = if p n then some n else highest p n

-- From `i` up, `k` indices.
unfoldable pub lowest : (ℕ → Bool) → ℕ → ℕ → Option ℕ
lowest p zero i = none
lowest p (suc k) i = if p i then some i else lowest p k (i + 1)

-- The scan's result passes the test, lies below the bound, and nothing above it passes.
pub highest_sound : (p : ℕ → Bool) (n i : ℕ) → highest p n ≡ some i → (p i ≡ true) × (i < n)
unfolding highest
highest_sound p zero i e = ground arith
highest_sound p (suc n) i e = ground (arith, highest_sound p n i)

pub highest-above : (p : ℕ → Bool) (n i j : ℕ) → highest p n ≡ some i → i < j → j < n → p j ≡ false
unfolding highest
highest-above p zero i j e h k = absurd (omega arith)
highest-above p (suc n) i j e h k = elim (Bool-cases (p n)) [
  | inl t ↦ absurd (ground arith)
  | inr f ↦ elim (dec_lt j n) [
    | yes below ↦ highest-above p n i j (rw f at e) h below
    | no top ↦ let same : j ≡ n = omega arith in rw same f
  ]
]

pub highest-none : (p : ℕ → Bool) (n j : ℕ) → highest p n ≡ none → j < n → p j ≡ false
unfolding highest
highest-none p zero j e h = absurd (omega arith)
highest-none p (suc n) j e h = elim (Bool-cases (p n)) [
  | inl t ↦ absurd (ground arith)
  | inr f ↦ elim (dec_lt j n) [
    | yes below ↦ highest-none p n j (rw f at e) below
    | no top ↦ let same : j ≡ n = omega arith in rw same f
  ]
]

-- The scan reads the test below its bound only.
pub highest-ext :
    (p q : ℕ → Bool) (n : ℕ) → ((j : ℕ) → j < n → p j ≡ q j) → highest p n ≡ highest q n
unfolding highest
highest-ext p q zero h = refl
highest-ext p q (suc n) h = rw (h n (omega arith), highest-ext p q n (λ j k. h j (omega arith)))

-- Nothing passes from `m` up to `n`: the scan may as well start at `m`.
pub highest-skip :
    (p : ℕ → Bool) (m k : ℕ)
    → ((j : ℕ) → m ≤ j → j < m + k → p j ≡ false)
    → highest p (m + k) ≡ highest p m
unfolding highest
highest-skip p m zero h = ap (highest p) (omega arith)
highest-skip p m (suc k) h =
    let e : m + suc k ≡ suc (m + k) = omega arith in
    rw e (
      rw (h (m + k) (omega arith) (omega arith))
        (highest-skip p m k (λ j a b. h j a (omega arith))))

pub highest-some :
    (p : ℕ → Bool) (n i : ℕ)
    → i < n
    → p i ≡ true
    → ((j : ℕ) → i < j → j < n → p j ≡ false)
    → highest p n ≡ some i
unfolding highest
highest-some p zero i h t above = absurd (omega arith)
highest-some p (suc n) i h t above = elim (dec_lt i n) [
  | yes below ↦
      rw (above n below (omega arith))
        (highest-some p n i below t (λ j a b. above j a (omega arith)))
  | no top ↦ let same : i ≡ n = omega arith in rw (← same) (rw t)
]

pub lowest_sound :
    (p : ℕ → Bool) (k i m : ℕ) → lowest p k i ≡ some m → (p m ≡ true) × (i ≤ m) × (m < i + k)
unfolding lowest
lowest_sound p zero i m e = absurd (ground arith)
lowest_sound p (suc k) i m e = ground (arith, lowest_sound p k (i + 1) m)

pub lowest-below :
    (p : ℕ → Bool) (k i m j : ℕ) → lowest p k i ≡ some m → i ≤ j → j < m → p j ≡ false
unfolding lowest
lowest-below p zero i m j e h l = absurd (ground arith)
lowest-below p (suc k) i m j e h l = elim (Bool-cases (p i)) [
  | inl t ↦ absurd (ground arith)
  | inr f ↦ elim (dec_lt i j) [
    | yes above ↦ lowest-below p k (i + 1) m j (rw f at e) (omega arith) l
    | no top ↦ let same : j ≡ i = omega arith in rw same f
  ]
]

pub lowest-none : (p : ℕ → Bool) (k i j : ℕ) → lowest p k i ≡ none → i ≤ j → j < i + k → p j ≡ false
unfolding lowest
lowest-none p zero i j e h l = absurd (omega arith)
lowest-none p (suc k) i j e h l = elim (Bool-cases (p i)) [
  | inl t ↦ absurd (ground arith)
  | inr f ↦ elim (dec_lt i j) [
    | yes above ↦ lowest-none p k (i + 1) j (rw f at e) (omega arith) (omega arith)
    | no top ↦ let same : j ≡ i = omega arith in rw same f
  ]
]

pub lowest-ext :
    (p q : ℕ → Bool) (k i : ℕ)
    → ((j : ℕ) → i ≤ j → j < i + k → p j ≡ q j)
    → lowest p k i ≡ lowest q k i
unfolding lowest
lowest-ext p q zero i h = refl
lowest-ext p q (suc k) i h = rw (
  h i (omega arith) (omega arith),
  lowest-ext p q k (i + 1) (λ j a b. h j (omega arith) (omega arith)),
)

pub lowest-some :
    (p : ℕ → Bool) (k i m : ℕ)
    → i ≤ m
    → m < i + k
    → p m ≡ true
    → ((j : ℕ) → i ≤ j → j < m → p j ≡ false)
    → lowest p k i ≡ some m
unfolding lowest
lowest-some p zero i m h l t below = absurd (omega arith)
lowest-some p (suc k) i m h l t below = elim (dec_lt i m) [
  | yes above ↦
      rw (below i (omega arith) above)
        (lowest-some p k (i + 1) m (omega arith) (omega arith) t (λ j a b. below j (omega arith) b))
  | no top ↦ let same : i ≡ m = omega arith in rw same (rw t)
]

-- Nothing passes in the first `d` places: the scan may as well start behind them.
pub lowest-skip :
    (p : ℕ → Bool) (d k i : ℕ)
    → ((j : ℕ) → i ≤ j → j < i + d → p j ≡ false)
    → lowest p (d + k) i ≡ lowest p k (i + d)
unfolding lowest
lowest-skip p zero k i h =
    let a : zero + k ≡ k = omega arith in let b : i + zero ≡ i = omega arith in rw (a, b)
lowest-skip p (suc d) k i h =
    let a : suc d + k ≡ suc (d + k) = omega arith in
    let b : i + suc d ≡ i + 1 + d = omega arith in
    rw (a, b)
      (rw (h i (omega arith) (omega arith))
        (lowest-skip p d k (i + 1) (λ j x y. h j (omega arith) (omega arith))))
