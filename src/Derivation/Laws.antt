-- ===== src/Derivation/Laws.antt =====
-- Lemmas on the loops of `CollectAuthenticatedResults` of benchmarks/authenticated_results.h.
use vlse.Aead.{AeadLabel, Cipher, Outputs, decrypt_label}
use vlse.Base.{
  ℕ, zero, suc, ◌+◌, ◌*◌, ◌≤◌, ◌≡◌, refl, sym, ap, ◌∙◌, arith, Bool, true, false, ◌&&◌, ◌||◌, ◌==◌,
  ltb, if◌then◌else◌, List, [], ◌∷◌, ◌++◌, length, range, range_from, get_or, u32, u64, Result, ok,
  throw, runtime_error, ◌>>=◌, >>=-eq-ok, Bool-cases, inl, inr, subst, ltb→ge,
}
use vlse.Derivation.Sorting.{has, IsAscending, unique-sort}
use vlse.Derivation.{
  TokenKeyPair, Collecting, deduplicate, count_attempt, attempt, attempt_all, attempt_candidates,
  collect_authenticated_results, no_label,
}

has-append : (x : ℕ) (xs ys : List ℕ) → has x (xs ++ ys) ≡ (has x xs || has x ys)
unfolding has
has-append x [] ys = refl
has-append x (y ∷ xs) ys = ground (arith, has-append x xs ys)

length-range_from : (i n : ℕ) → length (range_from i n) ≡ n
length-range_from i zero = refl
length-range_from i (suc n) = ap suc (length-range_from (suc i) n)

-- The decryption gives this document, as a valid one.
unfoldable pub gives : ℕ → Result (Bool × Outputs) → Bool
gives x (throw error) = false
gives x (ok decoded) = decoded.0 && (decoded.1.valid && x == decoded.1.document_identifier)

module _ (cipher : Cipher) (d_max max_candidates : ℕ) (derived : TokenKeyPair) (epoch x : ℕ) where
  -- Component `j` of a record opens to the document under the derived key and token.
  unfoldable pub opens : List AeadLabel → ℕ → Bool
  opens components j = gives x (
      decrypt_label cipher derived.key epoch derived.token (u32 j) (get_or components j no_label)
        (record { valid = false; document_identifier = 0 }))

  unfoldable pub opens_among : List AeadLabel → List ℕ → Bool
  opens_among components [] = false
  opens_among components (j ∷ js) = opens components j || opens_among components js

  unfoldable pub opens_anywhere : List (List AeadLabel) → Bool
  opens_anywhere [] = false
  opens_anywhere (candidate ∷ candidates) =
      opens_among candidate (range d_max) || opens_anywhere candidates

  -- From one state of the loops to another: the documents gained, and the decryptions.
  record IsGained (gained : Bool) (count : ℕ) (r r' : Collecting) : Type 0 where
    elements : has x r'.documents ≡ (has x r.documents || gained)
    attempts : u64 r'.component_attempts ≡ u64 (r.component_attempts + count)

  or_assoc : (a b c : Bool) → ((a || b) || c) ≡ (a || (b || c))
  or_assoc true b c = refl
  or_assoc false b c = refl

  or_false : (a : Bool) → a ≡ (a || false)
  or_false true = refl
  or_false false = refl

  IsGained-twice :
      (a b : Bool) (m n : ℕ) (r s t : Collecting)
      → IsGained a m r s
      → IsGained b n s t
      → IsGained (a || b) (m + n) r t
  IsGained-twice a b m n r s t v w = record {
    elements = w.elements ∙ ap (λ c. c || b) v.elements ∙ or_assoc (has x r.documents) a b;
    attempts = omega (arith, v.attempts, w.attempts);
  }

  same-IsGained : (n : ℕ) (r r' : Collecting) → n ≡ 0 → r ≡ r' → IsGained false n r r'
  same-IsGained n r r' none e = record {
    elements = ap (λ (t : Collecting). has x t.documents) (sym e) ∙ or_false (has x r.documents);
    attempts = omega (arith, ap (λ (t : Collecting). t.component_attempts) e);
  }

  added :
      (a v : Bool) (d : ℕ) (ds : List ℕ)
      → has x (if a && v then ds ++ (d ∷ []) else ds) ≡ (has x ds || (a && (v && x == d)))
  unfolding has
  added true true d ds =
      has-append x ds (d ∷ []) ∙ ap (λ b. has x ds || b) (sym (or_false (x == d)))
  added true false d ds = or_false (has x ds)
  added false v d ds = or_false (has x ds)

  counted :
      (decoded : Bool × Outputs) (r : Collecting)
      → IsGained (gives x (ok decoded)) 1 r (count_attempt decoded r)
  unfolding gives count_attempt has
  counted decoded r = record {
    elements = added decoded.0 decoded.1.valid decoded.1.document_identifier r.documents;
    attempts = omega arith;
  }

  attempt-IsGained :
      (components : List AeadLabel) (j : ℕ) (r r' : Collecting)
      → attempt cipher d_max max_candidates derived epoch components j r ≡ ok r'
      → IsGained (opens components j) 1 r r'
  unfolding attempt opens
  attempt-IsGained components j r r' e =
      let (decoded, run, made) =
        >>=-eq-ok
          (decrypt_label cipher derived.key epoch derived.token (u32 j)
            (get_or components j no_label) (record { valid = false; document_identifier = 0 }))
          (λ decoded. ok (count_attempt decoded r)) e in
      let same : count_attempt decoded r ≡ r' = cc in
      rw run (subst (IsGained (gives x (ok decoded)) 1 r) same (counted decoded r))

  one_more : (k : ℕ) → 1 + k ≡ suc k
  one_more k = omega arith

  attempt_all-IsGained :
      (components : List AeadLabel) (js : List ℕ) (r r' : Collecting)
      → attempt_all cipher d_max max_candidates derived epoch components js r ≡ ok r'
      → IsGained (opens_among components js) (length js) r r'
  unfolding attempt_all opens_among
  attempt_all-IsGained components [] r r' e = same-IsGained 0 r r' refl cc
  attempt_all-IsGained components (j ∷ js) r r' e =
      let (next, run, rest) = >>=-eq-ok _ _ e in
      subst (λ n. IsGained (opens components j || opens_among components js) n r r')
        (one_more (length js))
        (IsGained-twice _ _ 1 (length js) r next r' (attempt-IsGained components j r next run)
          (attempt_all-IsGained components js next r' rest))

  attempt_candidates-IsGained :
      (candidates : List (List AeadLabel)) (r r' : Collecting)
      → attempt_candidates cipher d_max max_candidates derived epoch candidates r ≡ ok r'
      → IsGained (opens_anywhere candidates) (length candidates * d_max) r r'
  unfolding attempt_candidates opens_anywhere
  attempt_candidates-IsGained [] r r' e = same-IsGained (0 * d_max) r r' (omega arith) cc
  attempt_candidates-IsGained (candidate ∷ candidates) r r' e =
      let (next, run, rest) = >>=-eq-ok _ _ e in
      let gained =
        IsGained-twice _ _ (length (range d_max)) (length candidates * d_max) r next r'
          (attempt_all-IsGained candidate (range d_max) r next run)
          (attempt_candidates-IsGained candidates next r' rest) in
      let count : length (range d_max) + length candidates * d_max
          ≡ suc (length candidates) * d_max =
        ap (λ n. n + length candidates * d_max) (length-range_from 0 d_max) ∙ grind arith in
      subst (λ n. IsGained (opens_anywhere (candidate ∷ candidates)) n r r') count gained

  few_ascend : (documents : List ℕ) → length documents ≤ 1 → IsAscending documents
  few_ascend [] few = tt
  few_ascend (d ∷ []) few = tt
  few_ascend (d ∷ e ∷ documents) few = absurd (omega arith)

  deduplicate-has :
      (documents : List ℕ)
      → IsAscending (deduplicate documents) × (has x (deduplicate documents) ≡ has x documents)
  unfolding deduplicate
  deduplicate-has documents = elim (Bool-cases (ltb 1 (length documents))) [
    | inl many ↦ rw many (unique-sort documents x)
    | inr few ↦ rw few (few_ascend documents (ltb→ge _ _ few), refl)
  ]

  -- When the collection of results ends normally, the candidates were at most the allowed number,
  -- the result is strictly ascending, a document is in it exactly if a component of a candidate
  -- opens to it as a valid one, and the counter of attempts grew, modulo 2 ^ 64, by the number of
  -- components of all candidates.
  pub collect_authenticated_results-opens :
      (candidates : List (List AeadLabel)) (component_attempts : ℕ) (results : Collecting)
      → collect_authenticated_results cipher d_max max_candidates derived epoch candidates
          component_attempts
        ≡ ok results
      → (length candidates ≤ max_candidates)
        × (IsAscending results.documents
            × ((has x results.documents ≡ opens_anywhere candidates)
                × (u64 results.component_attempts
                    ≡ u64 (component_attempts + length candidates * d_max))))
  unfolding collect_authenticated_results has
  collect_authenticated_results-opens candidates component_attempts results e = guarded _ refl e
    where
      start : Collecting
      start = record { documents = []; component_attempts = component_attempts }

      complete : Collecting → Result Collecting
      complete r = ok (record r { documents = deduplicate r.documents })

      guarded :
          (over : Bool)
          → ltb max_candidates (length candidates) ≡ over
          → (if over
              then throw runtime_error
              else (attempt_candidates cipher d_max max_candidates derived epoch candidates start
                  >>= complete))
            ≡ ok results
          → (length candidates ≤ max_candidates)
            × (IsAscending results.documents
                × ((has x results.documents ≡ opens_anywhere candidates)
                    × (u64 results.component_attempts
                        ≡ u64 (component_attempts + length candidates * d_max))))
      guarded true over h = absurd cc
      guarded false within h =
          let (r, run, made) =
            >>=-eq-ok
              (attempt_candidates cipher d_max max_candidates derived epoch candidates start)
              complete h in
          let gained = attempt_candidates-IsGained candidates start r run in
          let (ascending, same) = deduplicate-has r.documents in
          let whole : (record r { documents = deduplicate r.documents }) ≡ results = cc in
          (
            ltb→ge _ _ within,
            (
              subst (λ (t : Collecting). IsAscending t.documents) whole ascending,
              (
                ap (λ (t : Collecting). has x t.documents) (sym whole) ∙ same ∙ gained.elements,
                ap (λ (t : Collecting). u64 t.component_attempts) (sym whole) ∙ gained.attempts,
              ),
            ),
          )
