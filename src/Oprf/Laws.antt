-- ===== src/Oprf/Laws.antt =====
-- Lemmas on the encodings, the rejection loops and the evaluations of common/src/ntl_oprf.cpp.
use native.Mathlib.Nat.{lt_of_lt_of_le, pow-suc}
use vlse.Base.{
  ℕ, zero, suc, ◌+◌, ◌*◌, ◌%◌, ◌^◌, ◌<◌, ◌≡◌, refl, sym, ap, ◌∙◌, arith, Bool, true, false, List,
  [], ◌∷◌, length, bit_and, u8, u32, ◌⊎◌, ◌>>>◌, ◌<<<◌, Result, ok, throw, logic_error, Returns,
  subst, inl, inr, leb, ltb, ◌==◌, if◌then◌else◌, ◌&&◌, ◌>>=◌, not, ◌≤◌,
}
use vlse.Bits.{bit_and-low_bits}
use vlse.Oprf.Powers.{IsGroup, hash_candidate-InRange, power_mod-order}
use vlse.Oprf.{
  Group, PreparedBlind, from_big_endian, from_big_endian_after, big_endian_bytes, to_big_endian,
  group_element_bytes, random_scalar, scalar_bytes, cofactor, hash_candidate, hash_to_group,
  hash_to_group_from, direct_evaluate, prepare_blind, evaluate_prepared,
}

pick :
    {A : Type 0} (b : Bool) (x y : A) (again : Result A)
    → (if b then ok x else again) ≡ ok y
    → ((b ≡ true) × (x ≡ y)) ⊎ (again ≡ ok y)
pick true x y again e = inl (refl, cc)
pick false x y again e = inr e

-- The bytes with the rest before them still read as the value with the bytes written before.
big_endian_reads :
    (size value : ℕ) (written : List ℕ)
    → from_big_endian_after
        (big_endian_bytes size value written).1
        (big_endian_bytes size value written).0
      ≡ from_big_endian_after value written
unfolding big_endian_bytes from_big_endian_after
big_endian_reads zero value written = refl
big_endian_reads (suc size) value written =
    let low : u8 (bit_and value 0xff) ≡ value % 256 = omega (arith, bit_and-low_bits 8 value) in
    let joined : (value >>> 8 <<< 8) + u8 (bit_and value 0xff) ≡ value = omega (arith, low) in
    big_endian_reads size (value >>> 8) (u8 (bit_and value 0xff) ∷ written)
    ∙ ap (λ t. from_big_endian_after t written) joined

big_endian_rest :
    (size value : ℕ) (written : List ℕ)
    → value < 256 ^ size
    → (big_endian_bytes size value written).1 ≡ 0
unfolding big_endian_bytes
big_endian_rest zero value written small = omega arith
big_endian_rest (suc size) value written small =
    big_endian_rest size (value >>> 8) _ (omega (arith, pow-suc 256 size))

big_endian_length :
    (size value : ℕ) (written : List ℕ)
    → length (big_endian_bytes size value written).0 ≡ size + length written
unfolding big_endian_bytes
big_endian_length zero value written = omega arith
big_endian_length (suc size) value written =
    omega (arith, big_endian_length size (value >>> 8) (u8 (bit_and value 0xff) ∷ written))

-- For a modulus of at most 384 bytes, every number below it is encoded, in 384 bytes, and decoding
-- them gives the number back.
pub from_big_endian-to_big_endian :
    (g : Group) (input : ℕ)
    → g.modulus ≤ 256 ^ group_element_bytes
    → input < g.modulus
    → Returns
        (to_big_endian g input)
        λ output. (length output ≡ group_element_bytes) × (from_big_endian output ≡ input)
unfolding to_big_endian from_big_endian
from_big_endian-to_big_endian g input small below =
    let written : List ℕ × ℕ = big_endian_bytes group_element_bytes input [] in
    let rest : written.1 ≡ 0 =
      big_endian_rest group_element_bytes input [] (lt_of_lt_of_le below small) in
    let inside : leb g.modulus input ≡ false = ground arith in
    (
      written.0,
      rw (inside, rest),
      (
        big_endian_length group_element_bytes input [],
        ap (λ t. from_big_endian_after t written.0) (sym rest)
            ∙ big_endian_reads group_element_bytes input []
            ∙ (unfold from_big_endian_after in refl),
      ),
    )

exponent : (s key inv k q : ℕ) → s * inv ≡ 1 + k * q → s * key * inv ≡ key + (key * k) * q
exponent s key inv k q e =
    let moved : s * key * inv ≡ key * (s * inv) = grind arith in
    moved ∙ ap (λ t. key * t) e ∙ grind arith

module _ (g : Group) (v : IsGroup g) where
  open g use {modulus, subgroup_order, power_mod, inv_mod, Pool}

  -- Whatever is hashed lies in the subgroup.
  hash_to_group-member :
      (fuel counter : ℕ) (input : List ℕ) (element : ℕ)
      → hash_to_group_from g fuel counter input ≡ ok element
      → (a : ℕ) × (0 < a) × (a < modulus) × (power_mod a (cofactor g) modulus ≡ element)
  unfolding hash_to_group_from
  hash_to_group-member zero counter input element e = absurd cc
  hash_to_group-member (suc fuel) counter input element e =
      let found : ℕ = power_mod (hash_candidate g counter input) (cofactor g) modulus in
      elim (pick (not (found == 1)) found element _ e) [
        | inl (_, same) ↦
            let (above, below) = hash_candidate-InRange g v counter input in
            (hash_candidate g counter input, above, below, same)
        | inr later ↦ hash_to_group-member fuel (u32 (counter + 1)) input element later
      ]

  unblinds :
      (a s key : ℕ)
      → 0 < a
      → a < modulus
      → 0 < s
      → s < subgroup_order
      → power_mod
          (power_mod (power_mod (power_mod a (cofactor g) modulus) s modulus) key modulus)
          (inv_mod s subgroup_order)
          modulus
        ≡ power_mod (power_mod a (cofactor g) modulus) key modulus
  unblinds a s key a_pos a_below pos below =
      let e : ℕ = power_mod a (cofactor g) modulus in
      let reduced : e < modulus = v.power_mod-lt a (cofactor g) a_below in
      let (k, inverse) = v.mul-inv_mod s pos below in
      let inv : ℕ = inv_mod s subgroup_order in
      let whole : s * key * inv ≡ key + (key * k) * subgroup_order =
        exponent s key inv k subgroup_order inverse in
      ap (λ t. power_mod t inv modulus) (v.power_mod-power_mod e s key reduced)
      ∙ v.power_mod-power_mod e (s * key) inv reduced
      ∙ ap (λ t. power_mod e t modulus) whole
      ∙ power_mod-order g v a key (key * k) a_pos a_below

  evaluate_fresh :
      (key : ℕ) (input : List ℕ) (s : ℕ)
      → 0 < s
      → s < subgroup_order
      → (evaluate_prepared g key input
          (record { scalar = s; inverse = inv_mod s subgroup_order; consumed = false })).1
        ≡ direct_evaluate g key input
  unfolding evaluate_prepared direct_evaluate hash_to_group
  evaluate_fresh key input s pos below = hashed _ refl
    where
      hashed :
          (r : Result ℕ)
          → hash_to_group_from g g.rejections 0 input ≡ r
          → (hash_to_group_from g g.rejections 0 input >>= λ element. to_big_endian g (
              power_mod
                (power_mod (power_mod element s modulus) key modulus)
                (inv_mod s subgroup_order)
                modulus))
            ≡ (hash_to_group_from g g.rejections 0 input >>= λ element.
                to_big_endian g (power_mod element key modulus))
      hashed (throw error) e = rw e
      hashed (ok element) e =
          let (a, a_pos, a_below, member) = hash_to_group-member g.rejections 0 input element e in
          rw (e, ← member) (ap (to_big_endian g) (unblinds a s key a_pos a_below pos below))

  random_scalar-InRange :
      (fuel : ℕ) (pool : Pool) (drawn : ℕ × Pool)
      → random_scalar g fuel pool ≡ ok drawn
      → (0 < drawn.0) × (drawn.0 < subgroup_order)
  unfolding random_scalar
  random_scalar-InRange zero pool drawn e = absurd cc
  random_scalar-InRange (suc fuel) pool drawn e =
      let block : List ℕ × Pool = g.generate_block scalar_bytes pool in
      let scalar : ℕ = from_big_endian block.0 in
      elim (pick (ltb 0 scalar && ltb scalar subgroup_order) (scalar, block.1) drawn _ e) [
        | inl (fits, same) ↦
            subst (λ (d : ℕ × Pool). (0 < d.0) × (d.0 < subgroup_order)) same
              (ground arith, ground arith)
        | inr later ↦ random_scalar-InRange fuel block.1 drawn later
      ]

  -- If the modulus is above 3 and its predecessor is the cofactor times the subgroup order, powers
  -- modulo it, of numbers below it, stay below it, compose and, if the number is not 0, satisfy
  -- Fermat's little theorem, and inverses modulo the subgroup order are inverses, then the online
  -- evaluation with a blind that was just prepared gives what the direct evaluation gives,
  -- exceptions included; and a second evaluation with the blind throws and leaves it as it is.
  pub evaluate_prepared-prepare_blind :
      (key : ℕ) (input other : List ℕ) (pool pool' : Pool) (blind : PreparedBlind)
      → prepare_blind g pool ≡ ok (blind, pool')
      → ((evaluate_prepared g key input blind).1 ≡ direct_evaluate g key input)
        × (evaluate_prepared g key other (evaluate_prepared g key input blind).0
            ≡ ((evaluate_prepared g key input blind).0, throw logic_error))
  unfolding prepare_blind evaluate_prepared
  evaluate_prepared-prepare_blind key input other pool pool' blind e =
      drawn (random_scalar g g.rejections pool) refl e
    where
      made_from : ℕ × Pool → Result (PreparedBlind × Pool)
      made_from d =
          ok (record { scalar = d.0; inverse = inv_mod d.0 subgroup_order; consumed = false }, d.1)

      drawn :
          (r : Result (ℕ × Pool))
          → random_scalar g g.rejections pool ≡ r
          → (r >>= made_from) ≡ ok (blind, pool')
          → ((evaluate_prepared g key input blind).1 ≡ direct_evaluate g key input)
            × (evaluate_prepared g key other (evaluate_prepared g key input blind).0
                ≡ ((evaluate_prepared g key input blind).0, throw logic_error))
      drawn (throw error) run made = absurd cc
      drawn (ok (s, next)) run made =
          let fresh : PreparedBlind = record {
            scalar = s;
            inverse = inv_mod s subgroup_order;
            consumed = false;
          } in
          let same : fresh ≡ blind = cc in
          let (pos, below) = random_scalar-InRange g.rejections pool (s, next) run in
          subst
            (λ b.
              ((evaluate_prepared g key input b).1 ≡ direct_evaluate g key input)
              × (evaluate_prepared g key other (evaluate_prepared g key input b).0
                  ≡ ((evaluate_prepared g key input b).0, throw logic_error)))
            same (evaluate_fresh key input s pos below, refl)
