-- ===== src/Ring/Slots.antt =====
-- `index & kMask` for a capacity that is a power of two: the indices of a window no longer than the
-- capacity have slots of their own.
use Prim.Native.Nat.{bit_and, digits, bit_and-bitwise}
use native.Mathlib.Nat.{
  pow-suc, mul_assoc, mul-suc, mul-le-mul_left, lt_of_mul-lt-mul_left, mod-eq_of_lt,
  add-mul-mod_self_left,
}
use burst_resilient_feed_han.Base.{
  ℕ, zero, suc, ◌+◌, ◌-◌, ◌*◌, ◌/◌, ◌%◌, ◌^◌, ◌≤◌, ◌<◌, min, ◌≡◌, ◌≢◌, refl, sym, ap, ◌∙◌, arith,
}

abbrev pub slot : ℕ → ℕ → ℕ
slot k i = bit_and i (2 ^ k - 1)

-- More digits than the first number has change nothing.
and_digits-more :
    (n m a b : ℕ) → a ≤ n → a ≤ m → digits (λ b. zero) min n a b ≡ digits (λ b. zero) min m a b
and_digits-more zero zero a b p q = refl
and_digits-more zero (suc m) zero b p q = refl
and_digits-more zero (suc m) (suc a) b p q = absurd (omega arith)
and_digits-more (suc n) zero zero b p q = refl
and_digits-more (suc n) zero (suc a) b p q = absurd (omega arith)
and_digits-more (suc n) (suc m) zero b p q = refl
and_digits-more (suc n) (suc m) (suc a) b p q =
    omega (arith, and_digits-more n m (suc a / 2) (b / 2) (omega arith) (omega arith))

zero-bit_and : (b : ℕ) → bit_and 0 b ≡ 0
zero-bit_and b = bit_and-bitwise 0 b

bit_and-digit : (a b : ℕ) → bit_and a b ≡ bit_and (a / 2) (b / 2) * 2 + min (a % 2) (b % 2)
bit_and-digit zero b = omega (arith, zero-bit_and b, zero-bit_and (b / 2))
bit_and-digit (suc a) b = omega (
  arith,
  bit_and-bitwise (suc a) b,
  bit_and-bitwise (suc a / 2) (b / 2),
  and_digits-more a (suc a / 2) (suc a / 2) (b / 2) (omega arith) (omega arith),
)

pub pow_pos : (k : ℕ) → 1 ≤ 2 ^ k
pow_pos zero = omega arith
pow_pos (suc k) = omega (arith, pow-suc 2 k, pow_pos k)

slot-digit : (k i : ℕ) → slot (suc k) i ≡ slot k (i / 2) * 2 + i % 2
slot-digit k i =
    let p = pow_pos k in
    let half : (2 ^ suc k - 1) / 2 ≡ 2 ^ k - 1 = omega (arith, pow-suc 2 k) in
    let odd : (2 ^ suc k - 1) % 2 ≡ 1 = omega (arith, pow-suc 2 k) in
    bit_and-digit i (2 ^ suc k - 1) ∙ rw (half, odd) (omega arith)

bit_and-zero_bounded : (n i : ℕ) → i ≤ n → bit_and i 0 ≡ 0
bit_and-zero_bounded n zero h = zero-bit_and 0
bit_and-zero_bounded zero (suc i) h = absurd (omega arith)
bit_and-zero_bounded (suc n) (suc i) h =
    omega (arith, bit_and-digit (suc i) 0, bit_and-zero_bounded n (suc i / 2) (omega arith))

-- An index is its slot and a number of rounds of the capacity.
pub slot-rounds : (k i : ℕ) → (q : ℕ) × (i ≡ slot k i + 2 ^ k * q)
slot-rounds zero i = (i, omega (arith, bit_and-zero_bounded i i))
slot-rounds (suc k) i =
    let (q, e) = slot-rounds k (i / 2) in
    (
      q,
      omega (arith, e, slot-digit k i, ap (λ (t : ℕ). t * q) (pow-suc 2 k), mul_assoc 2 (2 ^ k) q),
    )

rounds-apart : (c q r : ℕ) → c * q < c * r → c * r < c * q + c → ⊥
rounds-apart c q r a b =
    let more : suc q ≤ r = lt_of_mul-lt-mul_left c {m = q} {n = r} a in
    omega (arith, mul-le-mul_left {m = suc q} {n = r} c more, mul-suc c q)

-- Two indices of one window never share a slot.
pub slot-ne : (k i j : ℕ) → i < j → j < i + 2 ^ k → slot k j ≢ slot k i
slot-ne k i j a b e =
    let (q, ei) = slot-rounds k i in
    let (r, ej) = slot-rounds k j in rounds-apart (2 ^ k) q r (omega arith) (omega arith)

slot-lt : (k i : ℕ) → slot k i < 2 ^ k
slot-lt zero i = omega (arith, bit_and-zero_bounded i i)
slot-lt (suc k) i = omega (arith, slot-digit k i, slot-lt k (i / 2), pow-suc 2 k)

-- The mask takes the remainder.
pub slot-mod : (k i : ℕ) → slot k i ≡ i % 2 ^ k
slot-mod k i =
    let (q, e) = slot-rounds k i in
    let small : slot k i % 2 ^ k ≡ slot k i = mod-eq_of_lt (slot-lt k i) in
    sym small ∙ sym (add-mul-mod_self_left (slot k i) (2 ^ k) q) ∙ ap (λ (x : ℕ). x % 2 ^ k) (sym e)
