-- ===== src/Demo/Numerals.antt =====
-- The numbers in the keywords of paired_vlse/demo.cpp.
use native.Mathlib.Nat.{pow-suc}
use vlse.Base.{
  get_or-map_range, ℕ, zero, suc, ◌+◌, ◌-◌, ◌*◌, ◌/◌, ◌%◌, ◌^◌, ◌≤◌, ◌<◌, ◌≡◌, ◌≢◌, sym, ap, ◌∙◌,
  arith, ltb, ltb→lt, Bool-cases, inl, inr, List, [], ◌∷◌, ◌++◌, get_or,
}
use vlse.Demo.{to_string, to_string_from, make_keywords, keyword_prefix}

-- The number that decimal digits continue.
unfoldable pub from_decimal_after : ℕ → List ℕ → ℕ
from_decimal_after value [] = value
from_decimal_after value (digit ∷ digits) = from_decimal_after (value * 10 + (digit - 48)) digits

to_string_from-reads :
    (digits value : ℕ) (written : List ℕ)
    → value < 10 ^ digits
    → from_decimal_after 0 (to_string_from digits value written) ≡ from_decimal_after value written
unfolding to_string_from from_decimal_after
to_string_from-reads zero value written below =
    let none : value ≡ 0 = omega arith in ap (λ v. from_decimal_after v written) (sym none)
to_string_from-reads (suc digits) value written below = elim (Bool-cases (ltb value 10)) [
  | inl last ↦
      let digit : 0 * 10 + (48 + value % 10 - 48) ≡ value = omega (arith, ltb→lt _ _ last) in
      rw last (ap (λ v. from_decimal_after v written) digit)
  | inr more ↦
      let fewer : value / 10 < 10 ^ digits = omega (arith, pow-suc 10 digits) in
      let whole : value / 10 * 10 + (48 + value % 10 - 48) ≡ value = omega arith in
      rw more (
        to_string_from-reads digits (value / 10) ((48 + value % 10) ∷ written) fewer
        ∙ ap (λ v. from_decimal_after v written) whole)
]

from_decimal-to_string :
    (value : ℕ) → value < 10 ^ 20 → from_decimal_after 0 (to_string value) ≡ value
unfolding to_string from_decimal_after
from_decimal-to_string value below = to_string_from-reads 20 value [] below

prefix_cancel : (xs ys : List ℕ) → keyword_prefix ++ xs ≡ keyword_prefix ++ ys → xs ≡ ys
prefix_cancel xs ys e = cc

-- Among at most 2 ^ 64 keywords of the demo, those at different positions are different.
pub make_keywords-apart :
    (count i j : ℕ)
    → count ≤ 2 ^ 64
    → i < count
    → j < count
    → i ≢ j
    → get_or (make_keywords count) i [] ≢ get_or (make_keywords count) j []
unfolding make_keywords
make_keywords-apart count i j few i_below j_below apart e =
    let named : (k : ℕ)
        → k < count
        → get_or (make_keywords count) k [] ≡ keyword_prefix ++ to_string k =
      λ k below.
        get_or-map_range (λ k. keyword_prefix ++ to_string k) 0 count k [] below
        ∙ (let start : 0 + k ≡ k = omega arith in ap (λ t. keyword_prefix ++ to_string t) start) in
    let same : to_string i ≡ to_string j =
      prefix_cancel _ _ (sym (named i i_below) ∙ e ∙ named j j_below) in
    let i_small : i < 10 ^ 20 = omega arith in
    let j_small : j < 10 ^ 20 = omega arith in
    apart (
      sym (from_decimal-to_string i i_small)
      ∙ ap (from_decimal_after 0) same
      ∙ from_decimal-to_string j j_small)
