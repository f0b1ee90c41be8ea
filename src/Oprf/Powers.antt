-- ===== src/Oprf/Powers.antt =====
-- What common/src/ntl_oprf.cpp relies on in NTL's modular arithmetic, for arguments that NTL
-- documents, and what follows for the powers that it takes.
use native.Mathlib.Nat.{mod-lt}
use vlse.Base.{ℕ, ◌+◌, ◌-◌, ◌*◌, ◌%◌, ◌<◌, ◌≡◌, sym, ap, ◌∙◌, arith, List}
use vlse.Oprf.{Group, cofactor, hash_candidate}

-- `PowerMod` reduces and composes on arguments below the modulus; the modulus is a prime above 3,
-- so that Fermat's little theorem gives positive arguments the period p - 1; the cofactor is whole,
-- which `Validate` tests; and `InvMod` inverts the scalars from 1 to q - 1.
pub record IsGroup (g : Group) : Type 0 where
  pub above_three : 3 < g.modulus
  pub cofactor_whole : cofactor g * g.subgroup_order ≡ g.modulus - 1
  pub power_mod-lt : (a x : ℕ) → a < g.modulus → g.power_mod a x g.modulus < g.modulus
  pub power_mod-power_mod :
      (a x y : ℕ)
      → a < g.modulus
      → g.power_mod (g.power_mod a x g.modulus) y g.modulus ≡ g.power_mod a (x * y) g.modulus
  pub fermat :
      (a x k : ℕ)
      → 0 < a
      → a < g.modulus
      → g.power_mod a (x + k * (g.modulus - 1)) g.modulus ≡ g.power_mod a x g.modulus
  pub mul-inv_mod :
      (s : ℕ)
      → 0 < s
      → s < g.subgroup_order
      → (k : ℕ) × (s * g.inv_mod s g.subgroup_order ≡ 1 + k * g.subgroup_order)

periods : (c x k q r : ℕ) → c * q ≡ r → c * (x + k * q) ≡ c * x + k * r
periods c x k q r e =
    let moved : c * (x + k * q) ≡ c * x + k * (c * q) = grind arith in
    moved ∙ ap (λ t. c * x + k * t) e

reduced : (p : ℕ) → 3 < p → (wide : ℕ) → (0 < wide % (p - 3) + 2) × (wide % (p - 3) + 2 < p)
reduced p above wide =
    let three : 0 < p - 3 = omega (arith, above) in
    (omega arith, omega (arith, mod-lt wide three, above))

module _ (g : Group) (v : IsGroup g) where
  open g use {modulus, subgroup_order, power_mod}

  -- The candidates of `HashToGroup` are the numbers from 2 to p - 2.
  pub hash_candidate-InRange :
      (counter : ℕ) (input : List ℕ)
      → (0 < hash_candidate g counter input) × (hash_candidate g counter input < modulus)
  unfolding hash_candidate
  hash_candidate-InRange counter input = reduced modulus v.above_three _

  -- The subgroup order is a period of the exponents of what is hashed.
  pub power_mod-order :
      (a x k : ℕ)
      → 0 < a
      → a < modulus
      → power_mod (power_mod a (cofactor g) modulus) (x + k * subgroup_order) modulus
        ≡ power_mod (power_mod a (cofactor g) modulus) x modulus
  power_mod-order a x k pos below =
      v.power_mod-power_mod a (cofactor g) (x + k * subgroup_order) below
      ∙ ap (λ t. power_mod a t modulus)
          (periods (cofactor g) x k subgroup_order (modulus - 1) v.cofactor_whole)
      ∙ v.fermat a (cofactor g * x) k pos below
      ∙ sym (v.power_mod-power_mod a (cofactor g) x below)
