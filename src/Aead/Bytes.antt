-- ===== src/Aead/Bytes.antt =====
-- Lemmas on the byte loops of paired_vlse/include/aead_label.h.
use native.Mathlib.Nat.{mod-eq_of_lt, mul-le-mul, pow-le-pow_right}
use vlse.Base.{
  ℕ, zero, suc, ◌+◌, ◌-◌, ◌*◌, ◌%◌, ◌^◌, ◌≤◌, ◌<◌, ◌≡◌, sym, ap, ap₂, ◌∙◌, arith, List, get_or,
  for_each, range_from, bit_or, u8, u64, ◌<<<◌, ◌>>>◌, dec_lt, subst,
}
use vlse.Bits.{bit, bit-bit_or, bit-mod, bit-shl, bit-shr}
use vlse.Filter.State.Alternate.{eq_of_bits}

two_pos : 0 < 2
two_pos = omega arith

-- The low bits with the next byte.
pub join_byte : (v k : ℕ) → bit_or (v % 2 ^ k) (u8 (v >>> k) <<< k) ≡ v % 2 ^ (k + 8)
join_byte v k = eq_of_bits _ _ λ i. elim (dec_lt i k) [
  | yes below ↦ ground (
    arith,
    bit-bit_or (v % 2 ^ k) (u8 (v >>> k) <<< k) i,
    bit-mod v k i,
    bit-shl (u8 (v >>> k)) k i,
    bit-mod v (k + 8) i,
  )
  | no above ↦
      let place : k + (i - k) ≡ i = omega arith in
      let here : bit v (k + (i - k)) ≡ bit v i = ap (bit v) place in
      ground (
        arith,
        bit-bit_or (v % 2 ^ k) (u8 (v >>> k) <<< k) i,
        bit-mod v k i,
        bit-shl (u8 (v >>> k)) k i,
        bit-mod (v >>> k) 8 (i - k),
        bit-shr v k (i - k),
        bit-mod v (k + 8) i,
        here,
      )
]

-- The bytes `i`, ..., `i + n - 1` of two numbers agree.
abbrev pub SameBytes : ℕ → ℕ → ℕ → ℕ → Type 0
SameBytes i zero v w = Unit {0}
SameBytes i (suc n) v w = (u8 (v >>> (8 * i)) ≡ u8 (w >>> (8 * i))) × SameBytes (suc i) n v w

pub same_low :
    (i n v w : ℕ)
    → v % 2 ^ (8 * i) ≡ w % 2 ^ (8 * i)
    → SameBytes i n v w
    → v % 2 ^ (8 * (i + n)) ≡ w % 2 ^ (8 * (i + n))
same_low i zero v w e s = let h : i + 0 ≡ i = omega arith in rw h e
same_low i (suc n) v w e s =
    let next : 8 * i + 8 ≡ 8 * suc i = omega arith in
    let step : v % 2 ^ (8 * suc i) ≡ w % 2 ^ (8 * suc i) =
      subst (λ t. v % 2 ^ t ≡ w % 2 ^ t) next
        (sym (join_byte v (8 * i))
          ∙ ap₂ (λ a b. bit_or a (b <<< (8 * i))) e s.0
          ∙ join_byte w (8 * i)) in
    let h : i + suc n ≡ suc i + n = omega arith in rw h (same_low (suc i) n v w step s.1)

-- The bytes `i`, ..., `i + n - 1` of a list are those of a number.
abbrev pub Spells : List ℕ → ℕ → ℕ → ℕ → Type 0
Spells input i zero v = Unit {0}
Spells input i (suc n) v = (get_or input i 0 ≡ u8 (v >>> (8 * i))) × Spells input (suc i) n v

byte_fits : (v i : ℕ) → i < 8 → u64 (u8 v <<< (8 * i)) ≡ u8 v <<< (8 * i)
byte_fits v i few = mod-eq_of_lt (
    omega (
      arith,
      mul-le-mul {n₁ = u8 v} {m₁ = 2 ^ (8 * i)} {n₂ = 255} {m₂ = 2 ^ 56} (omega arith)
          (pow-le-pow_right two_pos {i = 8 * i} {j = 56} (omega arith)),
    ))

pub load_loop :
    (input : List ℕ) (i n v : ℕ)
    → i + n ≤ 8
    → Spells input i n v
    → for_each
        (range_from i n)
        (λ index value. bit_or value (u64 (get_or input index 0 <<< (8 * index))))
        (v % 2 ^ (8 * i))
      ≡ v % 2 ^ (8 * (i + n))
unfolding for_each
load_loop input i zero v few s = let h : i + 0 ≡ i = omega arith in rw h
load_loop input i (suc n) v few s =
    let next : 8 * i + 8 ≡ 8 * suc i = omega arith in
    let h : i + suc n ≡ suc i + n = omega arith in
    let step : bit_or (v % 2 ^ (8 * i)) (u64 (get_or input i 0 <<< (8 * i))) ≡ v % 2 ^ (8 * suc i) =
      ap (λ t. bit_or (v % 2 ^ (8 * i)) t)
        (ap (λ t. u64 (t <<< (8 * i))) s.0 ∙ byte_fits (v >>> (8 * i)) i (omega arith))
      ∙ join_byte v (8 * i)
      ∙ ap (λ t. v % 2 ^ t) next in
    ap
      (for_each (range_from (suc i) n)
        λ index value. bit_or value (u64 (get_or input index 0 <<< (8 * index))))
      step
    ∙ load_loop input (suc i) n v (omega arith) s.1
    ∙ ap (λ t. v % 2 ^ (8 * t)) (sym h)
