-- ===== src/Codec/Laws.antt =====
-- Every descending quadruple of nibbles has a code below 3876, which decodes to it.
use mathlib.Core.List.{flat_map, Memᴰ}
use vlse.Base.{
  ℕ, zero, suc, ◌+◌, ◌^◌, ◌≤◌, ◌<◌, ◌≡◌, refl, ap, ◌∙◌, fun_ext, subst, ℕ_discrete, arith, some,
  ◌⊎◌, inl, inr, List, [], ◌∷◌, ◌++◌, map, length, range, range_from, for_each,
}
use vlse.Codec.{SemiSortCodec, plain, enter, bound, fill, blank, make_codec, codec}

-- The code of `p` is in use, and decodes to `p`.
pub record IsCoded (c : SemiSortCodec) (p : ℕ) : Type 0 where
  pub below : c.encode p < c.index
  pub decodes : c.decode (c.encode p) ≡ p

enter-IsCoded_self : (c : SemiSortCodec) (p : ℕ) → c.index + 1 < 2 ^ 16 → IsCoded (enter p c) p
unfolding enter
enter-IsCoded_self c p h = ground arith

enter-IsCoded :
    (c : SemiSortCodec) (p q : ℕ) → c.index + 1 < 2 ^ 16 → IsCoded c q → IsCoded (enter p c) q
unfolding enter
enter-IsCoded c p q h v = ground arith

enter-index : (c : SemiSortCodec) (p : ℕ) → c.index + 1 < 2 ^ 16 → (enter p c).index ≡ c.index + 1
unfolding enter
enter-index c p h = omega arith

for_each-enter-IsCoded :
    (ps : List ℕ) (c : SemiSortCodec) (q : ℕ)
    → c.index + length ps < 2 ^ 16
    → Memᴰ q ps ⊎ IsCoded c q
    → IsCoded (for_each ps enter c) q
unfolding for_each
for_each-enter-IsCoded [] c q h (inl m) = elim m [ ]
for_each-enter-IsCoded [] c q h (inr v) = v
for_each-enter-IsCoded (p ∷ ps) c q h v =
    for_each-enter-IsCoded ps (enter p c) q (omega (arith, enter-index c p (omega arith))) (now v)
  where
    now : Memᴰ q (p ∷ ps) ⊎ IsCoded c q → Memᴰ q ps ⊎ IsCoded (enter p c) q
    now (inl (Memᴰ.head e)) = inr (rw e (enter-IsCoded_self c p (omega arith)))
    now (inl (Memᴰ.tail m)) = inl m
    now (inr w) = inr (enter-IsCoded c p q (omega arith) w)

-- The nested loops as one loop over the quadruples in order.
module _ {ℓ κ} {B : Type ℓ} {S : Type κ} where
  for_each-append :
      (xs ys : List B) (g : B → S → S) (s : S)
      → for_each (xs ++ ys) g s ≡ for_each ys g (for_each xs g s)
  unfolding for_each
  for_each-append [] ys g s = refl
  for_each-append (x ∷ xs) ys g s = for_each-append xs ys g (g x s)

module _ {ℓ κ μ} {A : Type ℓ} {B : Type κ} {S : Type μ} where
  for_each-flat_map :
      (f : A → List B) (xs : List A) (g : B → S → S) (s : S)
      → for_each (flat_map f xs) g s ≡ for_each xs (λ x. for_each (f x) g) s
  unfolding for_each flat_map
  for_each-flat_map f [] g s = refl
  for_each-flat_map f (x ∷ xs) g s =
      for_each-append (f x) (flat_map f xs) g s ∙ for_each-flat_map f xs g (for_each (f x) g s)

  for_each-map :
      (f : A → B) (xs : List A) (g : B → S → S) (s : S)
      → for_each (map f xs) g s ≡ for_each xs (λ x. g (f x)) s
  unfolding for_each
  for_each-map f [] g s = refl
  for_each-map f (x ∷ xs) g s = for_each-map f xs g (g (f x) s)

abbrev plains_below : ℕ → ℕ → ℕ → List ℕ
plains_below i j k = map (plain i j k) (range (bound k))

plains : List ℕ
plains =
    flat_map
      (λ i. flat_map (λ j. flat_map (λ k. plains_below i j k) (range (bound j))) (range (bound i)))
      (range 16)

fill-plains : (c : SemiSortCodec) → for_each plains enter c ≡ fill c
unfolding fill plains
fill-plains c =
    for_each-flat_map _ (range 16) enter c
    ∙ ap (λ g. for_each (range 16) g c)
        (fun_ext λ i. fun_ext λ d.
          for_each-flat_map _ (range (bound i)) enter d
          ∙ ap (λ g. for_each (range (bound i)) g d)
              (fun_ext λ j. fun_ext λ d.
                for_each-flat_map _ (range (bound j)) enter d
                ∙ ap (λ g. for_each (range (bound j)) g d)
                    (fun_ext
                      λ k. fun_ext λ d. for_each-map (plain i j k) (range (bound k)) enter d)))

length-plains : length plains ≡ 3876
unfolding plains flat_map
length-plains = refl

fill-index : (fill blank).index ≡ 3876
unfolding fill for_each enter
fill-index = refl

module _ {ℓ} {B : Type ℓ} where
  mem-append_left : {b : B} (xs ys : List B) → Memᴰ b xs → Memᴰ b (xs ++ ys)
  mem-append_left [] ys m = elim m [ ]
  mem-append_left (x ∷ xs) ys (Memᴰ.head e) = Memᴰ.head e
  mem-append_left (x ∷ xs) ys (Memᴰ.tail m) = Memᴰ.tail (mem-append_left xs ys m)

  mem-append_right : {b : B} (xs ys : List B) → Memᴰ b ys → Memᴰ b (xs ++ ys)
  mem-append_right [] ys m = m
  mem-append_right (x ∷ xs) ys m = Memᴰ.tail (mem-append_right xs ys m)

module _ {ℓ κ} {A : Type ℓ} {B : Type κ} where
  mem-flat_map :
      (f : A → List B) {a : A} {b : B} (xs : List A)
      → Memᴰ a xs
      → Memᴰ b (f a)
      → Memᴰ b (flat_map f xs)
  unfolding flat_map
  mem-flat_map f [] n m = elim n [ ]
  mem-flat_map f {b} (x ∷ xs) (Memᴰ.head e) m =
      mem-append_left (f x) (flat_map f xs) (subst (λ t. Memᴰ b (f t)) e m)
  mem-flat_map f (x ∷ xs) (Memᴰ.tail n) m =
      mem-append_right (f x) (flat_map f xs) (mem-flat_map f xs n m)

  mem-map : (f : A → B) {a : A} (xs : List A) → Memᴰ a xs → Memᴰ (f a) (map f xs)
  mem-map f [] m = elim m [ ]
  mem-map f (x ∷ xs) (Memᴰ.head e) = Memᴰ.head (ap f e)
  mem-map f (x ∷ xs) (Memᴰ.tail m) = Memᴰ.tail (mem-map f xs m)

mem-range_from : (i s n : ℕ) → s ≤ i → i < s + n → Memᴰ i (range_from s n)
mem-range_from i s zero low high = absurd (omega arith)
mem-range_from i s (suc n) low high = elim (ℕ_discrete i s) [
  | yes e ↦ Memᴰ.head e
  | no ne ↦ Memᴰ.tail (mem-range_from i (suc s) n (omega arith) (omega arith))
]

-- The nibbles of a bucket sorted by descending fingerprint.
pub record IsDescending (i j k l : ℕ) : Type 0 where
  pub nibble : i < 16
  pub second : j ≤ i
  pub third : k ≤ j
  pub last : l ≤ k

mem-bound : (i n : ℕ) → i ≤ n → Memᴰ i (range (bound n))
mem-bound i n h = mem-range_from i 0 (bound n) (omega arith) (ground arith)

plain-mem : (i j k l : ℕ) → IsDescending i j k l → Memᴰ (plain i j k l) plains
unfolding plains
plain-mem i j k l d =
    mem-flat_map _ (range 16) (mem-range_from i 0 16 (omega arith) (omega arith)) (
      mem-flat_map _ (range (bound i)) (mem-bound j i d.second) (
        mem-flat_map _ (range (bound j)) (mem-bound k j d.third)
          (mem-map (plain i j k) (range (bound k)) (mem-bound l k d.last))))

-- The constructor of the codec does not throw: its loops make exactly 3876 entries.
make_codec_succeeds : make_codec ≡ some codec
unfolding make_codec codec
make_codec_succeeds = rw fill-index

codec-IsCoded : (i j k l : ℕ) → IsDescending i j k l → IsCoded codec (plain i j k l)
unfolding codec
codec-IsCoded i j k l d = rw (← fill-plains blank) (
    for_each-enter-IsCoded plains blank _ (rw length-plains (omega arith))
      (inl (plain-mem i j k l d)))

-- For four nibbles that do not ascend, decoding the code of their 16-bit word gives the word back.
pub decode-encode :
    (i j k l : ℕ)
    → IsDescending i j k l
    → codec.decode (codec.encode (plain i j k l)) ≡ plain i j k l
decode-encode i j k l d = (codec-IsCoded i j k l d).decodes

pub encode-lt : (i j k l : ℕ) → IsDescending i j k l → codec.encode (plain i j k l) < 3876
unfolding codec
encode-lt i j k l d = omega (arith, (codec-IsCoded i j k l d).below, fill-index)

pub decode-zero : codec.decode 0 ≡ 0
unfolding codec fill for_each enter plain
decode-zero = refl
