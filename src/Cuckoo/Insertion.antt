-- ===== src/Cuckoo/Insertion.antt =====
-- What `Find` finds after `Insert` in the `CuckooTable` of benchmarks/lse_protocol_benchmark.cpp.
use vlse.Base.{
  ℕ, zero, suc, ◌+◌, ◌≤◌, ◌<◌, ◌≡◌, refl, sym, ap, ◌∙◌, arith, ◌⊎◌, inl, inr, Bool, true, false,
  ◌&&◌, Bool-cases, Option-cases, List, [], length, get_or, range, range_from, some, ℕ_discrete,
  subst,
}
use vlse.Cuckoo.Positions.{
  same_token_refl, same_token→eq, IsShaped, Holds, settle-IsShaped, swap_random-IsShaped,
  settle-Holds, swap_random-Holds,
}
use vlse.Cuckoo.{
  Hashing, CuckooTable, position, first_free, swap_random, count_failure, relocate, end_round,
  relocation_limit, insert_token, same_token, find_from, find_token,
}

module _ (h : Hashing) where
  -- `Find` gives a bin that holds the token.
  abbrev pub Found : CuckooTable h → List ℕ → Type 0
  Found table token =
      (at : ℕ) × (find_token h table token ≡ some at) × (get_or table.bins at [] ≡ token)

  find_from-Holds :
      (n : ℕ) (table : CuckooTable h) (token : List ℕ) (first count at : ℕ)
      → length table.bins ≡ n
      → first + count ≤ 3
      → find_from h table token (range_from first count) ≡ some at
      → Holds h n table token
  unfolding find_from
  find_from-Holds n table token first zero at e few run = absurd cc
  find_from-Holds n table token first (suc count) at e few run =
      let here : ℕ = position h (length table.bins) token first in
      let same : here ≡ position h n token first = ap (λ m. position h m token first) e in
      let later : find_from h table token (range_from (suc first) count) ≡ some at
          → Holds h n table token =
        find_from-Holds n table token (suc first) count at e (omega arith) in
      elim (Bool-cases (get_or table.occupied here false)) [
        | inr free ↦ later (rw free at run)
        | inl taken ↦ elim (Bool-cases (same_token (get_or table.bins here []) token)) [
          | inr other ↦ later (rw (taken, other) at run)
          | inl equal ↦ record {
            hash = first;
            below = omega (arith, few);
            taken = ap (λ p. get_or table.occupied p false) (sym same) ∙ taken;
            there = ap (λ p. get_or table.bins p []) (sym same) ∙ same_token→eq _ _ equal;
          }
        ]
      ]

  find_from-some :
      (table : CuckooTable h) (token : List ℕ) (first count hash : ℕ)
      → first ≤ hash
      → hash < first + count
      → get_or table.occupied (position h (length table.bins) token hash) false ≡ true
      → get_or table.bins (position h (length table.bins) token hash) [] ≡ token
      → (at : ℕ) × (find_from h table token (range_from first count) ≡ some at)
        × (get_or table.bins at [] ≡ token)
  unfolding find_from
  find_from-some table token first zero hash low high taken there =
      absurd (omega (arith, low, high))
  find_from-some table token first (suc count) hash low high taken there =
      let here : ℕ = position h (length table.bins) token first in
      elim (Bool-cases
        (get_or table.occupied here false && same_token (get_or table.bins here []) token)) [
          | inl found ↦ (here, rw found refl, same_token→eq _ _ (second _ _ found))
          | inr passed ↦ elim (ℕ_discrete hash first) [
            | yes now ↦ absurd (
                let back : get_or table.occupied here false ≡ true =
                  ap (λ k. get_or table.occupied (position h (length table.bins) token k) false)
                    (sym now)
                  ∙ taken in
                let equal : get_or table.bins here [] ≡ token =
                  ap (λ k. get_or table.bins (position h (length table.bins) token k) []) (sym now)
                  ∙ there in
                let hit : same_token (get_or table.bins here []) token ≡ true =
                  ap (λ t. same_token t token) equal ∙ same_token_refl token in
                let no = rw (back, hit) at passed in cc)
            | no later ↦
                let (at, run, equal) =
                  find_from-some table token (suc first) count hash (omega (arith, low, later))
                    (omega (arith, high)) taken there in
                (at, rw passed run, equal)
          ]
        ]
    where
      second : (a b : Bool) → (a && b) ≡ true → b ≡ true
      second true b e = e
      second false b e = absurd cc

  pub Found-Holds :
      (n : ℕ) (table : CuckooTable h) (token : List ℕ)
      → IsShaped h n table
      → Found table token
      → Holds h n table token
  unfolding find_token
  Found-Holds n table token v (at, run, there) =
      find_from-Holds n table token 0 3 at v.bins (omega arith) run

  pub Holds-Found :
      (n : ℕ) (table : CuckooTable h) (token : List ℕ)
      → IsShaped h n table
      → Holds h n table token
      → Found table token
  unfolding find_token
  Holds-Found n table token v held =
      let same : position h n token held.hash ≡ position h (length table.bins) token held.hash =
        ap (λ m. position h m token held.hash) (sym v.bins) in
      find_from-some table token 0 3 held.hash (omega arith) (omega (arith, held.below))
        (ap (λ p. get_or table.occupied p false) (sym same) ∙ held.taken)
        (ap (λ p. get_or table.bins p []) (sym same) ∙ held.there)

  -- What a chain of relocations with a token in hand comes to.
  record IsRelocated (n : ℕ) (table : CuckooTable h) (token : List ℕ) (r : Bool × CuckooTable h)
      : Type 0 where
    shaped : IsShaped h n r.1
    placed : r.0 ≡ true → (t : List ℕ) → (Holds h n table t) ⊎ (t ≡ token) → Holds h n r.1 t
    dropped :
        r.0 ≡ false
        → (carried : List ℕ) × ((t : List ℕ)
            → (Holds h n table t) ⊎ (t ≡ token)
            → (Holds h n r.1 t) ⊎ (t ≡ carried))

  relocate-IsRelocated :
      (left relocation n : ℕ) (token : List ℕ) (table : CuckooTable h)
      → IsShaped h n table
      → IsRelocated n table token (relocate h left relocation token table)
  unfolding relocate end_round count_failure
  relocate-IsRelocated zero relocation n token table v = record {
    shaped = record { some_bins = v.some_bins; bins = v.bins; flags = v.flags };
    placed = λ e. absurd cc;
    dropped = λ e. (
      token,
      λ t which. elim which [
        | inl held ↦ inl (record {
          hash = held.hash;
          below = held.below;
          taken = held.taken;
          there = held.there;
        })
        | inr new ↦ inr new
      ],
    );
  }
  relocate-IsRelocated (suc left) relocation n token table v =
      elim (Option-cases (first_free h table token (range 3))) [
        | inl full ↦
            let swapped : CuckooTable h × List ℕ = swap_random h table token in
            let later =
              relocate-IsRelocated left (relocation + 1) n swapped.1 swapped.0
                (swap_random-IsShaped h n table token v) in
            rw full (record {
              shaped = later.shaped;
              placed =
                  λ e t which. later.placed e t (swap_random-Holds h n table token v full t which);
              dropped = λ e.
                  let (carried, keeps) = later.dropped e in
                  (carried, λ t which. keeps t (swap_random-Holds h n table token v full t which));
            })
        | inr (here, free) ↦ rw free (record {
          shaped = settle-IsShaped h n table token relocation here v;
          placed = λ e t which. settle-Holds h n table token relocation here v free t which;
          dropped = λ e. absurd cc;
        })
      ]

  -- After an insertion into a well-shaped cuckoo table that succeeds, the table is well-shaped with
  -- as many bins, and every token that was found before and the new one is found.
  pub insert_token-Found :
      (n : ℕ) (table table' : CuckooTable h) (token : List ℕ)
      → IsShaped h n table
      → insert_token h table token ≡ (true, table')
      → IsShaped h n table' × ((t : List ℕ) → (Found table t) ⊎ (t ≡ token) → Found table' t)
  unfolding insert_token
  insert_token-Found n table table' token v run =
      let r =
        subst (IsRelocated n table token) run
          (relocate-IsRelocated relocation_limit 0 n token table v) in
      (
        r.shaped,
        λ t which. Holds-Found n table' t r.shaped (
            r.placed refl t
              (elim which [ inl found ↦ inl (Found-Holds n table t v found) | inr new ↦ inr new ])),
      )

  -- After an insertion into a well-shaped cuckoo table that returns false, the table is well-shaped
  -- with as many bins, and there is one token such that every token that was found before, and the
  -- new one, is found or is that token.
  pub insert_token-drops :
      (n : ℕ) (table table' : CuckooTable h) (token : List ℕ)
      → IsShaped h n table
      → insert_token h table token ≡ (false, table')
      → IsShaped h n table'
        × ((carried : List ℕ) × ((t : List ℕ)
              → (Found table t) ⊎ (t ≡ token)
              → (Found table' t) ⊎ (t ≡ carried)))
  unfolding insert_token
  insert_token-drops n table table' token v run =
      let r =
        subst (IsRelocated n table token) run
          (relocate-IsRelocated relocation_limit 0 n token table v) in
      let (carried, keeps) = r.dropped refl in
      (
        r.shaped,
        (
          carried,
          λ t which.
              elim (keeps t (elim which [
                | inl found ↦ inl (Found-Holds n table t v found)
                | inr new ↦ inr new
              ])) [ inl held ↦ inl (Holds-Found n table' t r.shaped held) | inr lost ↦ inr lost ],
        ),
      )
