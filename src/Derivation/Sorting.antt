-- ===== src/Derivation/Sorting.antt =====
-- Lemmas on the sort and `std::unique` of benchmarks/authenticated_results.h.
use vlse.Base.{
  ℕ, ◌≤◌, ◌<◌, ◌≡◌, refl, ap, ◌∙◌, arith, Bool, false, ◌||◌, ◌==◌, ltb, List, [], ◌∷◌, Bool-cases,
  inl, inr,
}
use vlse.Derivation.{insert_document, sort, unique_after, unique}

unfoldable pub has : ℕ → List ℕ → Bool
has x [] = false
has x (y ∷ ys) = x == y || has x ys

-- Every element is at least the bound; every element is above it.
abbrev AllFrom : ℕ → List ℕ → Type 0
AllFrom a [] = Unit {0}
AllFrom a (x ∷ xs) = (a ≤ x) × AllFrom a xs

abbrev IsSorted : List ℕ → Type 0
IsSorted [] = Unit {0}
IsSorted (x ∷ xs) = AllFrom x xs × IsSorted xs

-- The elements ascend strictly, from above the bound.
abbrev pub AscendsFrom : ℕ → List ℕ → Type 0
AscendsFrom a [] = Unit {0}
AscendsFrom a (x ∷ xs) = (a < x) × AscendsFrom x xs

abbrev pub IsAscending : List ℕ → Type 0
IsAscending [] = Unit {0}
IsAscending (x ∷ xs) = AscendsFrom x xs

AllFrom-weaken : (a b : ℕ) (xs : List ℕ) → a ≤ b → AllFrom b xs → AllFrom a xs
AllFrom-weaken a b [] h v = tt
AllFrom-weaken a b (x ∷ xs) h v = (omega arith, AllFrom-weaken a b xs h v.1)

AllFrom-insert_document :
    (a x : ℕ) (xs : List ℕ) → a ≤ x → AllFrom a xs → AllFrom a (insert_document x xs)
unfolding insert_document
AllFrom-insert_document a x [] h v = (h, tt)
AllFrom-insert_document a x (y ∷ ys) h v = elim (Bool-cases (ltb y x)) [
  | inl above ↦ rw above (v.0, AllFrom-insert_document a x ys h v.1)
  | inr below ↦ rw below (h, v)
]

IsSorted-insert_document : (x : ℕ) (xs : List ℕ) → IsSorted xs → IsSorted (insert_document x xs)
unfolding insert_document
IsSorted-insert_document x [] v = (tt, tt)
IsSorted-insert_document x (y ∷ ys) v = elim (Bool-cases (ltb y x)) [
  | inl above ↦
      rw above
        (AllFrom-insert_document y x ys (ground arith) v.0, IsSorted-insert_document x ys v.1)
  | inr below ↦ rw below ((ground arith, AllFrom-weaken x y ys (ground arith) v.0), v)
]

IsSorted-sort : (xs : List ℕ) → IsSorted (sort xs)
unfolding sort
IsSorted-sort [] = tt
IsSorted-sort (x ∷ xs) = IsSorted-insert_document x (sort xs) (IsSorted-sort xs)

has-insert_document : (z x : ℕ) (xs : List ℕ) → has z (insert_document x xs) ≡ (z == x || has z xs)
unfolding has insert_document
has-insert_document z x [] = refl
has-insert_document z x (y ∷ ys) = ground (arith, has-insert_document z x ys)

has-sort : (z : ℕ) (xs : List ℕ) → has z (sort xs) ≡ has z xs
unfolding has sort
has-sort z [] = refl
has-sort z (x ∷ xs) = has-insert_document z x (sort xs) ∙ ap (λ b. z == x || b) (has-sort z xs)

AscendsFrom-unique_after :
    (a : ℕ) (xs : List ℕ) → AllFrom a xs → IsSorted xs → AscendsFrom a (unique_after a xs)
unfolding unique_after
AscendsFrom-unique_after a [] v s = tt
AscendsFrom-unique_after a (x ∷ xs) v s = elim (Bool-cases (a == x)) [
  | inl same ↦ rw same (AscendsFrom-unique_after a xs v.1 s.1)
  | inr apart ↦ rw apart (ground arith, AscendsFrom-unique_after x xs s.0 s.1)
]

has-unique_after :
    (z a : ℕ) (xs : List ℕ) → (z == a || has z (unique_after a xs)) ≡ (z == a || has z xs)
unfolding has unique_after
has-unique_after z a [] = refl
has-unique_after z a (x ∷ xs) = ground (arith, has-unique_after z a xs, has-unique_after z x xs)

-- Sorting and dropping equal neighbours gives a strictly ascending list with the same elements.
pub unique-sort :
    (documents : List ℕ) (x : ℕ)
    → IsAscending (unique (sort documents)) × (has x (unique (sort documents)) ≡ has x documents)
unfolding unique has
unique-sort documents x =
    let elements : has x (sort documents) ≡ has x documents = has-sort x documents in
    let sorted : IsSorted (sort documents) = IsSorted-sort documents in
    deduplicated (sort documents) sorted elements
  where
    deduplicated :
        (xs : List ℕ)
        → IsSorted xs
        → has x xs ≡ has x documents
        → IsAscending (unique xs) × (has x (unique xs) ≡ has x documents)
    deduplicated [] s e = (tt, e)
    deduplicated (y ∷ ys) s e = (AscendsFrom-unique_after y ys s.0 s.1, has-unique_after x y ys ∙ e)
