-- ===== src/Oprf/Draws.antt =====
-- The rejection loops of common/src/ntl_oprf.cpp end when the random pool and SHAKE256 give a value
-- that is accepted.
use vlse.Base.{
  ℕ, zero, suc, ◌+◌, ◌^◌, ◌≤◌, ◌<◌, ◌≡◌, ◌≢◌, refl, ap, ◌∙◌, arith, true, ◌&&◌, ◌==◌, ltb, lt→ltb,
  ==→eq, Bool-cases, inl, inr, List, Returns, u32, subst,
}
use vlse.Oprf.Laws.{from_big_endian-to_big_endian}
use vlse.Oprf.Powers.{IsGroup, hash_candidate-InRange}
use vlse.Oprf.{
  Group, group_element_bytes, scalar_bytes, from_big_endian, random_scalar, cofactor,
  hash_candidate, hash_to_group_from, hash_to_group, direct_evaluate,
}

module _ (g : Group) where
  open g use {modulus, subgroup_order, power_mod, Pool, generate_block}

  -- The pool after so many blocks for scalars.
  unfoldable pub pool_after : ℕ → Pool → Pool
  pool_after zero pool = pool
  pool_after (suc k) pool = pool_after k (generate_block scalar_bytes pool).1

  -- The block number `k` from a pool on is a scalar in [1, q - 1].
  abbrev pub IsScalarAt : ℕ → Pool → Type 0
  IsScalarAt k pool =
      (0 < from_big_endian (generate_block scalar_bytes (pool_after k pool)).0)
      × (from_big_endian (generate_block scalar_bytes (pool_after k pool)).0 < subgroup_order)

  pub random_scalar-Returns :
      (fuel k : ℕ) (pool : Pool)
      → k < fuel
      → IsScalarAt k pool
      → Returns (random_scalar g fuel pool) (λ _. Unit {0})
  unfolding random_scalar pool_after
  random_scalar-Returns zero k pool below at = absurd (omega arith)
  random_scalar-Returns (suc fuel) zero pool below at =
      let pos : ltb 0 (from_big_endian (generate_block scalar_bytes pool).0) ≡ true =
        lt→ltb _ _ at.0 in
      let small : ltb (from_big_endian (generate_block scalar_bytes pool).0) subgroup_order ≡ true =
        lt→ltb _ _ at.1 in
      (
        (
          from_big_endian (generate_block scalar_bytes pool).0,
          (generate_block scalar_bytes pool).1,
        ),
        rw (pos, small) refl,
        tt,
      )
  random_scalar-Returns (suc fuel) (suc k) pool below at =
      let block : List ℕ × Pool = generate_block scalar_bytes pool in
      let scalar : ℕ = from_big_endian block.0 in
      elim (Bool-cases (ltb 0 scalar && ltb scalar subgroup_order)) [
        | inl fits ↦ ((scalar, block.1), rw fits refl, tt)
        | inr out ↦
            let (drawn, run, t) = random_scalar-Returns fuel k block.1 (omega arith) at in
            (drawn, rw out run, tt)
      ]

  module _ (v : IsGroup g) (fits : modulus ≤ 256 ^ group_element_bytes) where
    hash_to_group_from-Returns :
        (fuel k counter : ℕ) (input : List ℕ)
        → k < fuel
        → counter + k < 2 ^ 32
        → power_mod (hash_candidate g (counter + k) input) (cofactor g) modulus ≢ 1
        → Returns (hash_to_group_from g fuel counter input) (λ element. element < modulus)
    unfolding hash_to_group_from
    hash_to_group_from-Returns zero k counter input below room accepted = absurd (omega arith)
    hash_to_group_from-Returns (suc fuel) k counter input below room accepted =
        let element : ℕ = power_mod (hash_candidate g counter input) (cofactor g) modulus in
        let reduced : element < modulus =
          v.power_mod-lt _ (cofactor g) (hash_candidate-InRange g v counter input).1 in
        elim (Bool-cases (element == 1)) [
          | inr other ↦ (element, rw other refl, reduced)
          | inl identity ↦
              later k identity below room accepted
                (λ j. hash_to_group_from-Returns fuel j (u32 (counter + 1)) input)
        ]
      where
        later :
            (k : ℕ)
            → power_mod (hash_candidate g counter input) (cofactor g) modulus == 1 ≡ true
            → k < suc fuel
            → counter + k < 2 ^ 32
            → power_mod (hash_candidate g (counter + k) input) (cofactor g) modulus ≢ 1
            → ((j : ℕ)
                → j < fuel
                → u32 (counter + 1) + j < 2 ^ 32
                → power_mod (hash_candidate g (u32 (counter + 1) + j) input) (cofactor g) modulus
                  ≢ 1
                → Returns
                    (hash_to_group_from g fuel (u32 (counter + 1)) input)
                    (λ element. element < modulus))
            → Returns (hash_to_group_from g (suc fuel) counter input) (λ element. element < modulus)
        later zero identity below room accepted again =
            let here : counter + 0 ≡ counter = omega arith in
            absurd (
              accepted (
                ap (λ i. power_mod (hash_candidate g i input) (cofactor g) modulus) here
                ∙ ==→eq _ 1 identity))
        later (suc j) identity below room accepted again =
            let step : counter + suc j ≡ u32 (counter + 1) + j = omega (arith, room) in
            let (element, run, reduced) = again j (omega arith) (omega (arith, room)) (
              subst (λ i. power_mod (hash_candidate g i input) (cofactor g) modulus ≢ 1) step
                accepted) in
            (element, rw identity run, reduced)

    pub direct_evaluate-Returns :
        (key k : ℕ) (input : List ℕ)
        → k < g.rejections
        → k < 2 ^ 32
        → power_mod (hash_candidate g k input) (cofactor g) modulus ≢ 1
        → Returns (direct_evaluate g key input) (λ _. Unit {0})
    unfolding direct_evaluate hash_to_group
    direct_evaluate-Returns key k input below room accepted =
        let (element, hashed, reduced) =
          hash_to_group_from-Returns g.rejections k 0 input below (omega (arith, room)) (
            let start : k ≡ 0 + k = omega arith in
            subst (λ i. power_mod (hash_candidate g i input) (cofactor g) modulus ≢ 1) start
              accepted) in
        let (output, encoded, t) =
          from_big_endian-to_big_endian g (power_mod element key modulus) fits
            (v.power_mod-lt element key reduced) in
        (output, rw (hashed, encoded) refl, tt)
