-- ===== src/Bits/Join.antt =====
-- `|` and `^` of fields that do not overlap are their sum.
use Prim.Native.Nat.{bit_or-bitwise}
use native.Mathlib.Nat.{pow-suc, div-div-eq-div-mul}
use vlse.Base.{
  ℕ, zero, suc, ◌+◌, ◌*◌, ◌/◌, ◌^◌, ◌<◌, ◌%◌, bit_or, bit_xor, ◌≡◌, refl, ap, sym, ◌∙◌, arith,
  ◌<<<◌,
}
use vlse.Bits.Step.{bit_or_step, bit_xor_step}

pub zero-bit_or : (a : ℕ) → bit_or 0 a ≡ a
zero-bit_or a = bit_or-bitwise 0 a

bit_or-zero_fuel : (n a : ℕ) → a < n → bit_or a 0 ≡ a
bit_or-zero_fuel zero a h = absurd (omega arith)
bit_or-zero_fuel (suc n) zero h = refl
bit_or-zero_fuel (suc n) (suc a) h =
    omega (arith, bit_or_step (suc a) 0, bit_or-zero_fuel n (suc a / 2) (omega arith))

pub bit_or-zero : (a : ℕ) → bit_or a 0 ≡ a
bit_or-zero a = bit_or-zero_fuel (suc a) a (omega arith)

twice_shift : (a k : ℕ) → a * 2 ^ suc k ≡ 2 * (a * 2 ^ k)
twice_shift a k = omega (arith, ap (λ (t : ℕ). a * t) (pow-suc 2 k))

pub bit_or_join : (k a r : ℕ) → r < 2 ^ k → bit_or (a <<< k) r ≡ a * 2 ^ k + r
bit_or_join zero a r h = ground (arith, bit_or-zero a)
bit_or_join (suc k) a r h = ground (
  arith,
  bit_or_step (a * 2 ^ suc k) r,
  twice_shift a k,
  pow-suc 2 k,
  bit_or_join k a (r / 2) (omega (arith, pow-suc 2 k)),
)

pub bit_or_join_low : (k a r : ℕ) → r < 2 ^ k → bit_or r (a <<< k) ≡ a * 2 ^ k + r
bit_or_join_low zero a r h = ground (arith, zero-bit_or a)
bit_or_join_low (suc k) a r h = ground (
  arith,
  bit_or_step r (a * 2 ^ suc k),
  twice_shift a k,
  pow-suc 2 k,
  bit_or_join_low k a (r / 2) (omega (arith, pow-suc 2 k)),
)

bit_xor-zero_fuel : (n a : ℕ) → a < n → bit_xor a 0 ≡ a
bit_xor-zero_fuel zero a h = absurd (omega arith)
bit_xor-zero_fuel (suc n) zero h = refl
bit_xor-zero_fuel (suc n) (suc a) h =
    omega (arith, bit_xor_step (suc a) 0, bit_xor-zero_fuel n (suc a / 2) (omega arith))

-- Setting a bit that is not set.
pub bit_xor-pow : (k p : ℕ) → p / 2 ^ k % 2 ≡ 0 → bit_xor p (2 ^ k) ≡ p + 2 ^ k
bit_xor-pow zero p clear =
    omega (arith, bit_xor_step p 1, bit_xor-zero_fuel (suc (p / 2)) (p / 2) (omega arith))
bit_xor-pow (suc k) p clear =
    let half : p / 2 / 2 ^ k ≡ p / 2 ^ suc k =
      div-div-eq-div-mul p 2 (2 ^ k) ∙ ap (λ t. p / t) (sym (twice k)) in
    let even : 2 ^ suc k / 2 ≡ 2 ^ k = omega (arith, twice k) in
    omega (
      arith,
      bit_xor_step p (2 ^ suc k),
      twice k,
      ap (bit_xor (p / 2)) even,
      bit_xor-pow k (p / 2) (ap (λ t. t % 2) half ∙ clear),
    )
  where
    twice : (k : ℕ) → 2 ^ suc k ≡ 2 * 2 ^ k
    twice k = omega (arith, pow-suc 2 k)
