-- ===== src/Tests/Toys.antt =====
-- Small stand-ins for the libraries: a cipher, a group and a `double`.
use native.Mathlib.Nat.{mul_assoc, mul_comm, pow-zero, pow-suc, mod-lt}
use vlse.Aead.{Cipher}
use vlse.Base.{
  ltb, ◌-◌, ℕ, zero, suc, ◌+◌, ◌*◌, ◌/◌, ◌%◌, ◌^◌, ◌<◌, ◌≡◌, refl, sym, ap, ◌∙◌, arith, true, List,
  [], ◌∷◌, some, ok,
}
use vlse.Oprf.Powers.{IsGroup}
use vlse.Oprf.{Group}
use vlse.Filter.Layout.{Double}

-- A cipher that seals by keeping the text, with the key as the tag.
abbrev pub keeping : Cipher
keeping = record {
  seal = λ key nonce aad text. some (text, key);
  unseal = λ key nonce aad ciphertext tag. ok (some ciphertext);
}

pub keeping_opens :
    (key nonce aad text ciphertext tag : List ℕ)
    → keeping.seal key nonce aad text ≡ some (ciphertext, tag)
    → keeping.unseal key nonce aad ciphertext tag ≡ ok (some text)
keeping_opens key nonce aad text ciphertext tag e =
    let same : (text, key) ≡ (ciphertext, tag) = cc in
    ap (λ (p : List ℕ × List ℕ). ok (some p.0)) (sym same)

-- The powers modulo 7, with the subgroup of order 3 that 2 generates.
abbrev pub group : Group
group = record {
  modulus = 7;
  subgroup_order = 3;
  generator = 2;
  power_mod = λ a x p. a ^ x % p;
  inv_mod = λ s q. s;
  prob_prime = λ n rounds. true;
  num_bits = λ n. n;
  shake256 = λ message size. message;
  Pool = ℕ;
  generate_block = λ size pool. (2 ∷ [], pool + 1);
  rejections = 8;
}

distribute : (q r y : ℕ) → 7 * (q * y) + r * y ≡ (7 * q + r) * y
distribute q r y = grind arith

reduced : (u v : ℕ) → u % 7 * v % 7 ≡ u * v % 7
reduced u v =
    let split : 7 * (u / 7) + u % 7 ≡ u = omega arith in
    let product : 7 * (u / 7 * v) + u % 7 * v ≡ u * v =
      distribute (u / 7) (u % 7) v ∙ ap (λ t. t * v) split in
    omega (arith, product)

pow-add : (a x y : ℕ) → a ^ (x + y) ≡ a ^ x * a ^ y
pow-add a x zero = grind (arith, pow-zero a)
pow-add a x (suc y) =
    let step : x + suc y ≡ suc (x + y) = omega arith in
    ap (λ t. a ^ t) step
    ∙ pow-suc a (x + y)
    ∙ ap (λ t. t * a) (pow-add a x y)
    ∙ mul_assoc (a ^ x) (a ^ y) a
    ∙ ap (λ t. a ^ x * t) (sym (pow-suc a y))

powers : (a x y : ℕ) → (a ^ x % 7) ^ y % 7 ≡ a ^ (x * y) % 7
powers a x zero =
    let none : x * 0 ≡ 0 = omega arith in
    ap (λ t. t % 7) (pow-zero (a ^ x % 7) ∙ sym (pow-zero a) ∙ ap (λ t. a ^ t) (sym none))
powers a x (suc y) =
    let r : ℕ = a ^ x % 7 in
    let more : x * suc y ≡ x * y + x = grind arith in
    ap (λ t. t % 7) (pow-suc r y)
    ∙ sym (reduced (r ^ y) r)
    ∙ ap (λ t. t * r % 7) (powers a x y)
    ∙ reduced (a ^ (x * y)) r
    ∙ ap (λ t. t % 7) (mul_comm (a ^ (x * y)) r)
    ∙ reduced (a ^ x) (a ^ (x * y))
    ∙ ap (λ t. t % 7) (mul_comm (a ^ x) (a ^ (x * y)) ∙ sym (pow-add a (x * y) x))
    ∙ ap (λ t. a ^ t % 7) (sym more)

-- The sixth powers are 1.
sixth : (a t : ℕ) → 0 < a → a < 7 → t * a ^ 6 % 7 ≡ t % 7
sixth zero t pos below = absurd (omega arith)
sixth (suc zero) t pos below = omega arith
sixth (suc (suc zero)) t pos below = omega arith
sixth (suc (suc (suc zero))) t pos below = omega arith
sixth (suc (suc (suc (suc zero)))) t pos below = omega arith
sixth (suc (suc (suc (suc (suc zero))))) t pos below = omega arith
sixth (suc (suc (suc (suc (suc (suc zero)))))) t pos below = omega arith
sixth (suc (suc (suc (suc (suc (suc (suc a))))))) t pos below = absurd (omega arith)

fermat : (a x k : ℕ) → 0 < a → a < 7 → a ^ (x + k * 6) % 7 ≡ a ^ x % 7
fermat a x zero pos below = let none : x + 0 * 6 ≡ x = omega arith in ap (λ t. a ^ t % 7) none
fermat a x (suc k) pos below =
    let more : x + suc k * 6 ≡ x + k * 6 + 6 = omega arith in
    ap (λ t. a ^ t % 7) more
    ∙ ap (λ t. t % 7) (pow-add a (x + k * 6) 6)
    ∙ sixth a (a ^ (x + k * 6)) pos below
    ∙ fermat a x k pos below

group_inverse : (s : ℕ) → 0 < s → s < 3 → (k : ℕ) × (s * s ≡ 1 + k * 3)
group_inverse zero pos below = absurd (omega arith)
group_inverse (suc zero) pos below = (0, refl)
group_inverse (suc (suc zero)) pos below = (1, refl)
group_inverse (suc (suc (suc s))) pos below = absurd (omega arith)

pub group-IsGroup : IsGroup group
group-IsGroup = record {
  above_three = omega arith;
  cofactor_whole = refl;
  power_mod-lt = λ a x below. mod-lt (a ^ x) (omega arith);
  power_mod-power_mod = λ a x y below. powers a x y;
  fermat = fermat;
  mul-inv_mod = group_inverse;
}

-- Reals with three decimals.
abbrev pub thousandths : Double
thousandths = record {
  Real = ℕ;
  of_size = λ n. n * 1000;
  decimal = λ n k. n * 1000 / 10 ^ k;
  add = λ x y. x + y;
  sub = λ x y. x - y;
  mul = λ x y. x * y / 1000;
  div = λ x y. x * 1000 / y;
  log = λ x. x;
  sqrt = λ x. x;
  abs = λ x. x;
  less = ltb;
  ceil_to_size = λ x. (x + 999) / 1000;
}
