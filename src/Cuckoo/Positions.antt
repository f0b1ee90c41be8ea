-- ===== src/Cuckoo/Positions.antt =====
-- Where tokens lie in the `CuckooTable` of benchmarks/lse_protocol_benchmark.cpp, and the steps of
-- its `Insert`.
use native.Mathlib.Nat.{mod-lt}
use vlse.Base.{
  ℕ, zero, suc, ◌+◌, ◌%◌, ◌≤◌, ◌<◌, ◌≡◌, ◌≢◌, refl, sym, ap, ◌∙◌, arith, ◌⊎◌, inl, inr, true, false,
  ◌==◌, ==→eq, ==_refl, ne→==, Bool-cases, List, [], ◌∷◌, length, length-set, get_or, set,
  get_or-set, range, range_from, none, some, ℕ_discrete, subst,
}
use vlse.Cuckoo.{Hashing, CuckooTable, position, first_free, settle, swap_random, same_token}

pub same_token_refl : (xs : List ℕ) → same_token xs xs ≡ true
unfolding same_token
same_token_refl [] = refl
same_token_refl (x ∷ xs) = rw (==_refl x) (same_token_refl xs)

pub same_token→eq : (xs ys : List ℕ) → same_token xs ys ≡ true → xs ≡ ys
unfolding same_token
same_token→eq [] [] e = refl
same_token→eq [] (y ∷ ys) e = absurd cc
same_token→eq (x ∷ xs) [] e = absurd cc
same_token→eq (x ∷ xs) (y ∷ ys) e = elim (Bool-cases (x == y)) [
  | inr apart ↦ absurd (let no = rw apart at e in cc)
  | inl same ↦
      let head : x ≡ y = ==→eq x y same in
      let tail : xs ≡ ys = same_token→eq xs ys (rw same at e) in cc
]

module _ (h : Hashing) where
  -- As many flags as bins, and that is `n`.
  pub record IsShaped (n : ℕ) (table : CuckooTable h) : Type 0 where
    pub some_bins : 0 < n
    pub bins : length table.bins ≡ n
    pub flags : length table.occupied ≡ n

  -- A token in one of its three positions.
  pub record Holds (n : ℕ) (table : CuckooTable h) (token : List ℕ) : Type 0 where
    pub hash : ℕ
    pub below : hash < 3
    pub taken : get_or table.occupied (position h n token hash) false ≡ true
    pub there : get_or table.bins (position h n token hash) [] ≡ token

  pub position-lt : (n : ℕ) (token : List ℕ) (hash : ℕ) → 0 < n → position h n token hash < n
  unfolding position
  position-lt n token hash pos = mod-lt _ pos

  first_free-some :
      (table : CuckooTable h) (token : List ℕ) (first count here : ℕ)
      → first_free h table token (range_from first count) ≡ some here
      → (hash : ℕ) × (hash < first + count)
        × (here ≡ position h (length table.bins) token hash)
        × (get_or table.occupied here false ≡ false)
  unfolding first_free
  first_free-some table token first zero here e = absurd cc
  first_free-some table token first (suc count) here e =
      let at : ℕ = position h (length table.bins) token first in
      elim (Bool-cases (get_or table.occupied at false)) [
        | inl taken ↦
            let (hash, below, same, free) =
              first_free-some table token (suc first) count here (rw taken at e) in
            (hash, omega (arith, below), same, free)
        | inr free ↦
            let same : at ≡ here = (let e' = rw free at e in cc) in
            (
              first,
              omega arith,
              sym same,
              ap (λ p. get_or table.occupied p false) (sym same) ∙ free,
            )
      ]

  first_free-none :
      (table : CuckooTable h) (token : List ℕ) (first count hash : ℕ)
      → first_free h table token (range_from first count) ≡ none
      → first ≤ hash
      → hash < first + count
      → get_or table.occupied (position h (length table.bins) token hash) false ≡ true
  unfolding first_free
  first_free-none table token first zero hash e low high = absurd (omega (arith, low, high))
  first_free-none table token first (suc count) hash e low high =
      let at : ℕ = position h (length table.bins) token first in
      elim (Bool-cases (get_or table.occupied at false)) [
        | inr free ↦ absurd (let no = rw free at e in cc)
        | inl taken ↦ elim (ℕ_discrete hash first) [
          | yes here ↦
              ap (λ k. get_or table.occupied (position h (length table.bins) token k) false) here
              ∙ taken
          | no later ↦
              first_free-none table token (suc first) count hash (rw taken at e)
                (omega (arith, low, later)) (omega (arith, high))
        ]
      ]

  pub settle-IsShaped :
      (n : ℕ) (table : CuckooTable h) (token : List ℕ) (relocation here : ℕ)
      → IsShaped n table
      → IsShaped n (settle h table token relocation here)
  unfolding settle
  settle-IsShaped n table token relocation here v = record {
    some_bins = v.some_bins;
    bins = length-set table.bins here token ∙ v.bins;
    flags = length-set table.occupied here true ∙ v.flags;
  }

  pub swap_random-IsShaped :
      (n : ℕ) (table : CuckooTable h) (token : List ℕ)
      → IsShaped n table
      → IsShaped n (swap_random h table token).0
  unfolding swap_random
  swap_random-IsShaped n table token v = record {
    some_bins = v.some_bins;
    bins = length-set table.bins _ token ∙ v.bins;
    flags = v.flags;
  }

  -- The token settles in a free position of its own, and the others stay.
  pub settle-Holds :
      (n : ℕ) (table : CuckooTable h) (token : List ℕ) (relocation here : ℕ)
      → IsShaped n table
      → first_free h table token (range 3) ≡ some here
      → (t : List ℕ) → (Holds n table t) ⊎ (t ≡ token)
      → Holds n (settle h table token relocation here) t
  unfolding settle
  settle-Holds n table token relocation here v e t (inr new) =
      let (hash, below, same, free) = first_free-some table token 0 3 here e in
      let at : position h n t hash ≡ here =
        ap (λ u. position h n u hash) new
        ∙ ap (λ m. position h m token hash) (sym v.bins)
        ∙ sym same in
      let inside : here < n = subst (λ p. p < n) at (position-lt n t hash v.some_bins) in
      record {
        hash = hash;
        below = below;
        taken =
            ap (λ p. get_or (set table.occupied here true) p false) at
            ∙ get_or-set table.occupied here here true false (omega (arith, inside, v.flags))
            ∙ (rw (==_refl here) refl);
        there =
            ap (λ p. get_or (set table.bins here token) p []) at
            ∙ get_or-set table.bins here here token [] (omega (arith, inside, v.bins))
            ∙ rw (==_refl here) (sym new);
      }
  settle-Holds n table token relocation here v e t (inl held) =
      let (hash, below, same, free) = first_free-some table token 0 3 here e in
      let at : here ≡ position h n token hash = same ∙ ap (λ m. position h m token hash) v.bins in
      let inside : here < n = subst (λ p. p < n) (sym at) (position-lt n token hash v.some_bins) in
      let q : ℕ = position h n t held.hash in
      let apart : here ≢ q =
        λ e'. absurd (let no = ap (λ p. get_or table.occupied p false) e' ∙ held.taken in cc) in
      record {
        hash = held.hash;
        below = held.below;
        taken =
            get_or-set table.occupied here q true false (omega (arith, inside, v.flags))
            ∙ rw (ne→== here q apart) held.taken;
        there =
            get_or-set table.bins here q token [] (omega (arith, inside, v.bins))
            ∙ rw (ne→== here q apart) held.there;
      }

  -- The token replaces the one that is carried on; the others stay.
  pub swap_random-Holds :
      (n : ℕ) (table : CuckooTable h) (token : List ℕ)
      → IsShaped n table
      → first_free h table token (range 3) ≡ none
      → (t : List ℕ) → (Holds n table t) ⊎ (t ≡ token)
      → (Holds n (swap_random h table token).0 t) ⊎ (t ≡ (swap_random h table token).1)
  unfolding swap_random
  swap_random-Holds n table token v e t which = replaced which
    where
      hash : ℕ
      hash = (h.draw table.random).0 % 3

      here : ℕ
      here = position h (length table.bins) token hash

      at : here ≡ position h n token hash
      at = ap (λ m. position h m token hash) v.bins

      inside : here < length table.bins
      inside =
          subst (λ m. position h m token hash < m) (sym v.bins)
            (position-lt n token hash v.some_bins)

      replaced :
          (Holds n table t) ⊎ (t ≡ token)
          → (Holds n (swap_random h table token).0 t) ⊎ (t ≡ (swap_random h table token).1)
      replaced (inr new) =
          let there' : position h n t hash ≡ here = ap (λ u. position h n u hash) new ∙ sym at in
          inl (record {
            hash = hash;
            below = mod-lt _ (omega arith);
            taken =
                ap (λ p. get_or table.occupied p false) there'
                ∙ first_free-none table token 0 3 hash e (omega arith) (mod-lt _ (omega arith));
            there =
                ap (λ p. get_or (set table.bins here token) p []) there'
                ∙ get_or-set table.bins here here token [] inside
                ∙ rw (==_refl here) (sym new);
          })
      replaced (inl held) =
          let q : ℕ = position h n t held.hash in
          elim (ℕ_discrete here q) [
            | yes same ↦ inr (sym held.there ∙ ap (λ p. get_or table.bins p []) (sym same))
            | no apart ↦ inl (record {
              hash = held.hash;
              below = held.below;
              taken = held.taken;
              there =
                  get_or-set table.bins here q token [] inside ∙ rw (ne→== here q apart) held.there;
            })
          ]
