-- ===== src/Tests/Groups.antt =====
-- The parameters of the group with a bit count that is one.
use native.Mathlib.Nat.{pow-suc, one-le-pow}
use vlse.Base.{
  ℕ, zero, suc, ◌+◌, ◌/◌, ◌^◌, ◌≤◌, ◌<◌, ◌≡◌, refl, ap, arith, true, false, ◌&&◌, ◌==◌, ne→==,
  if◌then◌else◌, [], ◌∷◌,
}
use vlse.Oprf.Parameters.{
  validate-eq, read_modulus-eq, read_subgroup_order-eq, read_generator-eq, modulus_number,
  subgroup_order_number, generator_number,
}
use vlse.Oprf.{Group, validate}

unfoldable bits_of : ℕ → ℕ → ℕ
bits_of zero n = 0
bits_of (suc fuel) n = let more = suc (bits_of fuel (n / 2)) in if n == 0 then 0 else more

bits_of-eq : (fuel n k : ℕ) → k < fuel → 2 ^ k ≤ n → n < 2 ^ suc k → bits_of fuel n ≡ suc k
unfolding bits_of
bits_of-eq zero n k below low high = absurd (omega arith)
bits_of-eq (suc zero) n (suc k) below low high = absurd (omega arith)
bits_of-eq (suc fuel) n zero below low high =
    let one : n ≡ 1 = omega (arith, low, high) in rw one (ap suc (none fuel))
  where
    none : (fuel : ℕ) → bits_of fuel (1 / 2) ≡ 0
    none zero = refl
    none (suc fuel) = refl
bits_of-eq (suc fuel) n (suc k) below low high =
    let some_bits : n == 0 ≡ false =
      ne→== n 0 (λ e. absurd (omega (arith, e, low, one-le-pow (suc k) 2 (omega arith)))) in
    rw some_bits (
      ap suc (
        bits_of-eq fuel (n / 2) k (omega arith) (omega (arith, pow-suc 2 k, low))
          (omega (arith, pow-suc 2 (suc k), high))))

lt-pow : (k : ℕ) → k < 2 ^ k
lt-pow zero = omega arith
lt-pow (suc k) = omega (arith, lt-pow k, pow-suc 2 k)

abbrev shipped : Group
shipped = record {
  modulus = modulus_number;
  subgroup_order = subgroup_order_number;
  generator = generator_number;
  power_mod = λ a x p. 1;
  inv_mod = λ s q. s;
  prob_prime = λ n rounds. true;
  num_bits = λ n. bits_of n n;
  shake256 = λ message size. message;
  Pool = ℕ;
  generate_block = λ size pool. (pool ∷ [], pool + 1);
  rejections = 8;
}

validate-eq_example : validate shipped ≡ (
    shipped.prob_prime modulus_number 32
    && (shipped.prob_prime subgroup_order_number 32
        && shipped.power_mod generator_number subgroup_order_number modulus_number == 1))
validate-eq_example =
    validate-eq shipped (λ n k low high. bits_of-eq n n k (omega (arith, low, lt-pow k)) low high)
      read_modulus-eq read_subgroup_order-eq read_generator-eq
