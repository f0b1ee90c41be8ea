-- ===== src/Bits/Step.antt =====
-- One equation for the lowest digit of each native bit operation, from the digit recursion with
-- fuel that the operation stands for.
use Prim.Native.Nat.{digits, bitwise, differ, bit_and-bitwise, bit_or-bitwise, bit_xor-bitwise}
use vlse.Base.{
  ℕ, zero, suc, ◌+◌, ◌*◌, ◌/◌, ◌%◌, ◌≤◌, ◌<◌, min, max, bit_and, bit_or, bit_xor, ◌≡◌, refl, arith,
  ap, ◌∙◌, dec_lt,
}

module _ (empty : ℕ → ℕ) (combine : ℕ → ℕ → ℕ) where
  -- A round of fuel beyond the first number is not used.
  spare_round :
      (fuel x y : ℕ)
      → x ≤ fuel
      → digits empty combine (suc fuel) x y ≡ digits empty combine fuel x y
  spare_round zero zero y enough = refl
  spare_round zero (suc x) y enough = absurd (omega arith)
  spare_round (suc fuel) zero y enough = refl
  spare_round (suc fuel) (suc x) y enough =
      ap (λ high. high * 2 + combine (suc x % 2) (y % 2))
        (spare_round fuel (suc x / 2) (y / 2) (omega arith))

  spare_fuel :
      (fuel least x y : ℕ)
      → x ≤ least
      → least ≤ fuel
      → digits empty combine fuel x y ≡ digits empty combine least x y
  spare_fuel zero least x y enough more =
      let same : 0 ≡ least = omega arith in ap (λ n. digits empty combine n x y) same
  spare_fuel (suc fuel) least x y enough more = elim (dec_lt fuel least) [
    | yes above ↦
        let same : suc fuel ≡ least = omega arith in ap (λ n. digits empty combine n x y) same
    | no below ↦ spare_round fuel x y (omega arith) ∙ spare_fuel fuel least x y enough (omega arith)
  ]

  lowest_digit :
      (x y : ℕ)
      → bitwise empty combine (suc x) y
        ≡ combine (suc x % 2) (y % 2) + 2 * bitwise empty combine (suc x / 2) (y / 2)
  lowest_digit x y =
      let half = suc x / 2 in
      omega (arith, spare_fuel x half half (y / 2) (omega arith) (omega arith))

pub bit_and_step : (x y : ℕ) → bit_and x y ≡ bit_and (x / 2) (y / 2) * 2 + min (x % 2) (y % 2)
bit_and_step zero y = simp bit_and-bitwise (omega arith)
bit_and_step (suc x) y =
    let digit = lowest_digit (λ _. 0) min x y in simp bit_and-bitwise (omega (arith, digit))

differ-digits : (x y : ℕ) → x < 2 → y < 2 → differ x y ≡ (x + y) % 2
differ-digits zero y p q = omega arith
differ-digits (suc zero) zero p q = refl
differ-digits (suc zero) (suc zero) p q = refl
differ-digits (suc zero) (suc (suc y)) p q = absurd (omega arith)
differ-digits (suc (suc x)) y p q = absurd (omega arith)

pub bit_xor_step : (a b : ℕ) → bit_xor a b ≡ bit_xor (a / 2) (b / 2) * 2 + (a % 2 + b % 2) % 2
bit_xor_step zero b = simp bit_xor-bitwise (omega arith)
bit_xor_step (suc a) b =
    let lowest : differ (suc a % 2) (b % 2) ≡ (suc a % 2 + b % 2) % 2 =
      differ-digits (suc a % 2) (b % 2) (omega arith) (omega arith) in
    simp bit_xor-bitwise (omega (arith, lowest, lowest_digit (λ y. y) differ a b))

pub bit_or_step : (x y : ℕ) → bit_or x y ≡ bit_or (x / 2) (y / 2) * 2 + max (x % 2) (y % 2)
bit_or_step zero y = simp bit_or-bitwise (omega arith)
bit_or_step (suc x) y =
    let digit = lowest_digit (λ t. t) max x y in simp bit_or-bitwise (omega (arith, digit))
