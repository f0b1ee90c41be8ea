-- ===== src/Bits.antt =====
-- The bits of a number: what `<<`, `>>`, `%`, `&`, `|`, `^` and `~` do to each, and that the bits
-- of a number determine it.
mod Step
pub mod Join
use Step.{bit_or_step, bit_and_step, bit_xor_step}
use native.Mathlib.Nat.{
  pow-suc, one-le-pow, div-div-eq-div-mul, mul-add-mod_self_right, mod-eq_of_lt, mul-add-div_right,
  mod-lt, div-add-mod', mul_comm,
}
use vlse.Base.{
  ℕ, zero, suc, ◌+◌, ◌-◌, ◌*◌, ◌/◌, ◌%◌, ◌^◌, ◌≤◌, ◌<◌, min, max, bit_and, bit_or, bit_xor, ◌≡◌,
  refl, sym, ap, ◌∙◌, arith, ltb, if◌then◌else◌, ◌<<<◌, ◌>>>◌,
}

-- Bit `i` of `n`.
unfoldable pub bit : ℕ → ℕ → ℕ
bit n zero = n % 2
bit n (suc i) = bit (n / 2) i

pub bit-le : (n i : ℕ) → bit n i ≤ 1
unfolding bit
bit-le n zero = omega arith
bit-le n (suc i) = bit-le (n / 2) i

pub zero-bit : (i : ℕ) → bit 0 i ≡ 0
unfolding bit
zero-bit zero = refl
zero-bit (suc i) = zero-bit i

-- The bits of a sum `2 * h + d` with a digit `d`.
bit_cons : (n h : ℕ) (i : ℕ) → n / 2 ≡ h → bit n (suc i) ≡ bit h i
unfolding bit
bit_cons n h i e = ap (λ t. bit t i) e

pub bit-bit_and : (a b i : ℕ) → bit (bit_and a b) i ≡ min (bit a i) (bit b i)
unfolding bit
bit-bit_and a b zero = omega (arith, bit_and_step a b)
bit-bit_and a b (suc i) =
    bit_cons (bit_and a b) (bit_and (a / 2) (b / 2)) i (omega (arith, bit_and_step a b))
    ∙ bit-bit_and (a / 2) (b / 2) i

pub bit-bit_or : (a b i : ℕ) → bit (bit_or a b) i ≡ max (bit a i) (bit b i)
unfolding bit
bit-bit_or a b zero = omega (arith, bit_or_step a b)
bit-bit_or a b (suc i) =
    bit_cons (bit_or a b) (bit_or (a / 2) (b / 2)) i (omega (arith, bit_or_step a b))
    ∙ bit-bit_or (a / 2) (b / 2) i

pub bit-bit_xor : (a b i : ℕ) → bit (bit_xor a b) i ≡ (bit a i + bit b i) % 2
unfolding bit
bit-bit_xor a b zero = omega (arith, bit_xor_step a b)
bit-bit_xor a b (suc i) =
    bit_cons (bit_xor a b) (bit_xor (a / 2) (b / 2)) i (omega (arith, bit_xor_step a b))
    ∙ bit-bit_xor (a / 2) (b / 2) i

mul-two-pow-suc : (a k : ℕ) → a * 2 ^ suc k ≡ 2 * (a * 2 ^ k)
mul-two-pow-suc a k = omega (arith, ap (λ (t : ℕ). a * t) (pow-suc 2 k))

pub bit-shl : (a k i : ℕ) → bit (a <<< k) i ≡ (if ltb i k then 0 else bit a (i - k))
unfolding bit
bit-shl a zero i =
    let e : a * 2 ^ 0 ≡ a = omega arith in
    let e' : i - 0 ≡ i = omega arith in rw (e, e') (ground arith)
bit-shl a (suc k) zero = ground (arith, mul-two-pow-suc a k)
bit-shl a (suc k) (suc i) =
    bit_cons (a * 2 ^ suc k) (a * 2 ^ k) i (omega (arith, mul-two-pow-suc a k))
    ∙ bit-shl a k i
    ∙ ground arith

pub bit-shr : (a k i : ℕ) → bit (a >>> k) i ≡ bit a (k + i)
unfolding bit
bit-shr a zero i =
    let e : a / 2 ^ 0 ≡ a = omega arith in let e' : 0 + i ≡ i = omega arith in rw (e, e')
bit-shr a (suc k) i =
    let e : a / 2 ^ suc k ≡ a / 2 / 2 ^ k =
      ap (λ t. a / t) (pow-suc 2 k ∙ mul_comm (2 ^ k) 2) ∙ sym (div-div-eq-div-mul a 2 (2 ^ k)) in
    let e' : suc k + i ≡ suc (k + i) = omega arith in rw (e, e') (bit-shr (a / 2) k i)

mod-two-mul : (a p : ℕ) → 0 < p → a % (2 * p) ≡ 2 * (a / 2 % p) + a % 2
mod-two-mul a p h = grind arith

mod_pow_suc : (a k : ℕ) → a % 2 ^ suc k ≡ 2 * (a / 2 % 2 ^ k) + a % 2
mod_pow_suc a k =
    ap (λ t. a % t) (pow-suc 2 k ∙ mul_comm (2 ^ k) 2)
    ∙ mod-two-mul a (2 ^ k) (one-le-pow k 2 (omega arith))

pub bit-mod : (a k i : ℕ) → bit (a % 2 ^ k) i ≡ (if ltb i k then bit a i else 0)
unfolding bit
bit-mod a zero i = let e : a % 2 ^ 0 ≡ 0 = omega arith in rw e (zero-bit i ∙ ground arith)
bit-mod a (suc k) zero = ground (arith, mod_pow_suc a k)
bit-mod a (suc k) (suc i) =
    bit_cons (a % 2 ^ suc k) (a / 2 % 2 ^ k) i (omega (arith, mod_pow_suc a k))
    ∙ bit-mod (a / 2) k i
    ∙ ground arith

pub bit-above : (a k i : ℕ) → a < 2 ^ k → k ≤ i → bit a i ≡ 0
bit-above a k i below h =
    ap (λ t. bit t i) (sym (mod-eq_of_lt below)) ∙ bit-mod a k i ∙ ground arith

-- `~a` at width `k`.
pub bit-complement : (a k i : ℕ) → a < 2 ^ k → i < k → bit (2 ^ k - 1 - a) i ≡ 1 - bit a i
unfolding bit
bit-complement a zero i below h = absurd (omega arith)
bit-complement a (suc k) zero below h = omega (arith, pow-suc 2 k)
bit-complement a (suc k) (suc i) below h =
    bit_cons (2 ^ suc k - 1 - a) (2 ^ k - 1 - a / 2) i (omega (arith, pow-suc 2 k))
    ∙ bit-complement (a / 2) k i (omega (arith, pow-suc 2 k)) (omega arith)

-- The mask of `k` low bits.
pub bit-low_bits : (k i : ℕ) → bit (2 ^ k - 1) i ≡ (if ltb i k then 1 else 0)
unfolding bit
bit-low_bits zero i = zero-bit i ∙ ground arith
bit-low_bits (suc k) zero = ground (arith, pow-suc 2 k, one-le-pow k 2 (omega arith))
bit-low_bits (suc k) (suc i) =
    bit_cons (2 ^ suc k - 1) (2 ^ k - 1) i (omega (arith, pow-suc 2 k))
    ∙ bit-low_bits k i
    ∙ ground arith

-- Numbers of `k` bits with the same bits are equal.
pub bit_ext : (k a b : ℕ) → a < 2 ^ k → b < 2 ^ k → ((i : ℕ) → i < k → bit a i ≡ bit b i) → a ≡ b
unfolding bit
bit_ext zero a b p q h = omega arith
bit_ext (suc k) a b p q h = omega (
  arith,
  h 0 (omega arith),
  bit_ext k (a / 2) (b / 2) (omega (arith, pow-suc 2 k)) (omega (arith, pow-suc 2 k))
      (λ i below. h (suc i) (omega arith)),
)

pub lt-two-pow : (a : ℕ) → a < 2 ^ a
lt-two-pow zero = omega arith
lt-two-pow (suc a) = omega (arith, lt-two-pow a, pow-suc 2 a)

-- Bits that vanish from `k` on bound the number.
pub lt_of_bits : (k a : ℕ) → ((i : ℕ) → k ≤ i → bit a i ≡ 0) → a < 2 ^ k
unfolding bit
lt_of_bits zero a h =
    let e : a ≡ 0 =
      bit_ext a a 0 (lt-two-pow a) (one-le-pow a 2 (omega arith))
        (λ i below. h i (omega arith) ∙ sym (zero-bit i)) in
    omega arith
lt_of_bits (suc k) a h =
    omega (arith, pow-suc 2 k, lt_of_bits k (a / 2) (λ i above. h (suc i) (omega arith)))

-- `2 ^ (j + k)`, the product of the two powers.
pub pow-add : (j k : ℕ) → 2 ^ (j + k) ≡ 2 ^ j * 2 ^ k
pow-add j zero = let e : j + 0 ≡ j = omega arith in rw e (omega arith)
pow-add j (suc k) =
    let e : j + suc k ≡ suc (j + k) = omega arith in
    rw e (omega (arith, pow-suc 2 (j + k), pow-add j k, mul-two-pow-suc (2 ^ j) k, pow-suc 2 k))

-- A mask of low bits is a remainder.
pub bit_and-low_bits : (k a : ℕ) → bit_and a (2 ^ k - 1) ≡ a % 2 ^ k
bit_and-low_bits k a =
    let masked : (i : ℕ) → bit (bit_and a (2 ^ k - 1)) i ≡ bit (a % 2 ^ k) i = λ i.
      ground (arith, bit-bit_and a (2 ^ k - 1) i, bit-low_bits k i, bit-mod a k i, bit-le a i) in
    let rest : a % 2 ^ k < 2 ^ k = mod-lt a (one-le-pow k 2 (omega arith)) in
    bit_ext k _ _ (lt_of_bits k _ (λ i above. masked i ∙ bit-above (a % 2 ^ k) k i rest above)) rest
      (λ i below. masked i)
