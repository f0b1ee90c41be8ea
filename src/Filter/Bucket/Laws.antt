-- ===== src/Filter/Bucket/Laws.antt =====
-- Counting records in a bucket: the sort keeps every count, and placing a record in a bucket with
-- an empty slot adds that record and keeps the others.
use vlse.Base.{
  ℕ, zero, suc, ◌+◌, ◌≤◌, ◌<◌, ◌≡◌, refl, ap, ◌∙◌, arith, Bool, false, [], ◌∷◌, ◌==◌, ltb, to_nat,
  length, get_or, set, length-set, Returns, Bool-cases, inl, inr,
}
use vlse.Filter.Bucket.{
  Record, Bucket, is_occupied, occupied, first_empty_from, first_empty, place, insert_sorted,
  stable_sort,
}

module _ {Payload : Type 0} where
  -- The number of records of a bucket that pass a test.
  unfoldable pub count : (Record Payload → Bool) → Bucket Payload → ℕ
  count p [] = 0
  count p (r ∷ b) = to_nat (p r) + count p b

  -- The test passes no empty slot.
  abbrev pub RejectsEmpty : (Record Payload → Bool) → Type 0
  RejectsEmpty p = (r : Record Payload) → r.fingerprint ≡ 0 → p r ≡ false

  pub occupied-count : (b : Bucket Payload) → occupied b ≡ count is_occupied b
  unfolding occupied count
  occupied-count [] = refl
  occupied-count (r ∷ b) = omega (arith, occupied-count b)

  pub occupied-le-length : (b : Bucket Payload) → occupied b ≤ length b
  unfolding occupied
  occupied-le-length [] = omega arith
  occupied-le-length (r ∷ b) = ground (arith, occupied-le-length b)

  count-insert_sorted :
      (p : Record Payload → Bool) (r : Record Payload) (b : Bucket Payload)
      → count p (insert_sorted r b) ≡ to_nat (p r) + count p b
  unfolding count insert_sorted
  count-insert_sorted p r [] = refl
  count-insert_sorted p r (x ∷ b) = ground (arith, count-insert_sorted p r b)

  pub count-stable_sort :
      (p : Record Payload → Bool) (b : Bucket Payload) → count p (stable_sort b) ≡ count p b
  unfolding count stable_sort
  count-stable_sort p [] = refl
  count-stable_sort p (r ∷ b) =
      omega (arith, count-insert_sorted p r (stable_sort b), count-stable_sort p b)

  length-insert_sorted :
      (r : Record Payload) (b : Bucket Payload) → length (insert_sorted r b) ≡ suc (length b)
  unfolding insert_sorted
  length-insert_sorted r [] = refl
  length-insert_sorted r (x ∷ b) = ground (arith, length-insert_sorted r b)

  pub length-stable_sort : (b : Bucket Payload) → length (stable_sort b) ≡ length b
  unfolding stable_sort
  length-stable_sort [] = refl
  length-stable_sort (r ∷ b) =
      length-insert_sorted r (stable_sort b) ∙ ap suc (length-stable_sort b)

  -- Every fingerprint of the bucket is below `m`.
  abbrev pub AllBelow : ℕ → Bucket Payload → Type 0
  AllBelow m [] = Unit {0}
  AllBelow m (r ∷ b) = (r.fingerprint < m) × AllBelow m b

  -- The fingerprints descend.
  abbrev pub IsSorted : Bucket Payload → Type 0
  IsSorted [] = Unit {0}
  IsSorted (r ∷ b) = AllBelow (suc r.fingerprint) b × IsSorted b

  AllBelow-weaken : (m n : ℕ) (b : Bucket Payload) → m ≤ n → AllBelow m b → AllBelow n b
  AllBelow-weaken m n [] h a = tt
  AllBelow-weaken m n (r ∷ b) h a = (omega arith, AllBelow-weaken m n b h a.1)

  AllBelow-insert_sorted :
      (m : ℕ) (r : Record Payload) (b : Bucket Payload)
      → r.fingerprint < m
      → AllBelow m b
      → AllBelow m (insert_sorted r b)
  unfolding insert_sorted
  AllBelow-insert_sorted m r [] h a = (h, tt)
  AllBelow-insert_sorted m r (x ∷ b) h a = elim (Bool-cases (ltb r.fingerprint x.fingerprint)) [
    | inl e ↦ rw e (a.0, AllBelow-insert_sorted m r b h a.1)
    | inr e ↦ rw e (h, a)
  ]

  pub AllBelow-stable_sort :
      (m : ℕ) (b : Bucket Payload) → AllBelow m b → AllBelow m (stable_sort b)
  unfolding stable_sort
  AllBelow-stable_sort m [] a = tt
  AllBelow-stable_sort m (r ∷ b) a =
      AllBelow-insert_sorted m r (stable_sort b) a.0 (AllBelow-stable_sort m b a.1)

  IsSorted-insert_sorted :
      (r : Record Payload) (b : Bucket Payload) → IsSorted b → IsSorted (insert_sorted r b)
  unfolding insert_sorted
  IsSorted-insert_sorted r [] s = (tt, tt)
  IsSorted-insert_sorted r (x ∷ b) s = elim (Bool-cases (ltb r.fingerprint x.fingerprint)) [
    | inl e ↦ rw e (
      AllBelow-insert_sorted (suc x.fingerprint) r b (ground arith) s.0,
      IsSorted-insert_sorted r b s.1,
    )
    | inr e ↦ rw e (
      (ground arith, AllBelow-weaken (suc x.fingerprint) (suc r.fingerprint) b (ground arith) s.0),
      s,
    )
  ]

  pub IsSorted-stable_sort : (b : Bucket Payload) → IsSorted (stable_sort b)
  unfolding stable_sort
  IsSorted-stable_sort [] = tt
  IsSorted-stable_sort (r ∷ b) = IsSorted-insert_sorted r (stable_sort b) (IsSorted-stable_sort b)

  insert_sorted_front :
      (r : Record Payload) (b : Bucket Payload)
      → AllBelow (suc r.fingerprint) b
      → insert_sorted r b ≡ r ∷ b
  unfolding insert_sorted
  insert_sorted_front r [] a = refl
  insert_sorted_front r (x ∷ b) a = ground arith

  -- Sorting a sorted bucket changes nothing, also between equal fingerprints.
  pub stable_sort-IsSorted : (b : Bucket Payload) → IsSorted b → stable_sort b ≡ b
  unfolding stable_sort
  stable_sort-IsSorted [] s = refl
  stable_sort-IsSorted (r ∷ b) s =
      ap (insert_sorted r) (stable_sort-IsSorted b s.1) ∙ insert_sorted_front r b s.0

  -- A write of one slot, as a change of the counts.
  pub count-set :
      (p : Record Payload → Bool) (b : Bucket Payload) (i : ℕ) (r d : Record Payload)
      → i < length b
      → count p (set b i r) + to_nat (p (get_or b i d)) ≡ count p b + to_nat (p r)
  unfolding count
  count-set p [] i r d h = absurd (omega arith)
  count-set p (x ∷ b) zero r d h = omega arith
  count-set p (x ∷ b) (suc i) r d h = omega (arith, count-set p b i r d (omega arith))

  pub AllBelow-set :
      (m : ℕ) (b : Bucket Payload) (i : ℕ) (r : Record Payload)
      → r.fingerprint < m
      → AllBelow m b
      → AllBelow m (set b i r)
  AllBelow-set m [] i r h a = tt
  AllBelow-set m (x ∷ b) zero r h a = (h, a.1)
  AllBelow-set m (x ∷ b) (suc i) r h a = (a.0, AllBelow-set m b i r h a.1)

  pub AllBelow-get_or :
      (m : ℕ) (b : Bucket Payload) (i : ℕ) (d : Record Payload)
      → d.fingerprint < m
      → AllBelow m b
      → (get_or b i d).fingerprint < m
  AllBelow-get_or m [] i d h a = h
  AllBelow-get_or m (x ∷ b) zero d h a = a.0
  AllBelow-get_or m (x ∷ b) (suc i) d h a = AllBelow-get_or m b i d h a.1

  -- `first_empty_from` finds an empty slot, if there is one.
  first_empty_from-Returns :
      (k : ℕ) (b : Bucket Payload) (d : Record Payload)
      → occupied b < length b
      → Returns
          (first_empty_from k b)
          λ j. (i : ℕ) × (j ≡ k + i) × (i < length b) × ((get_or b i d).fingerprint ≡ 0)
  unfolding first_empty_from occupied
  first_empty_from-Returns k [] d h = absurd (omega arith)
  first_empty_from-Returns k (r ∷ b) d h = elim (Bool-cases (r.fingerprint == 0)) [
    | inl e ↦ rw e (k, refl, (0, omega arith, omega arith, ground arith))
    | inr e ↦
        let (j, run, (i, place, below, empty)) =
          first_empty_from-Returns (k + 1) b d (ground arith) in
        rw e (j, run, (suc i, omega arith, omega arith, empty))
  ]

  -- What `place` makes of a bucket: one record more, and the rest as before.
  pub record IsPlaced (r : Record Payload) (b b' : Bucket Payload) : Type 0 where
    pub same_length : length b' ≡ length b
    pub below : (m : ℕ) → r.fingerprint < m → AllBelow m b → AllBelow m b'
    pub counts :
        (p : Record Payload → Bool) → RejectsEmpty p → count p b' ≡ count p b + to_nat (p r)

  pub place-IsPlaced :
      (r : Record Payload) (b : Bucket Payload)
      → occupied b < length b
      → Returns (place r b) (IsPlaced r b)
  unfolding place first_empty
  place-IsPlaced r b h =
      let (j, run, (i, at, below, empty)) = first_empty_from-Returns 0 b r h in
      let e : j ≡ i = omega arith in
      (
        set b j r,
        rw run,
        record {
          same_length = length-set b j r;
          below = λ m small a. AllBelow-set m b j r small a;
          counts = λ p rejects.
              rw e (ground (arith, count-set p b i r r below, rejects (get_or b i r) empty));
        },
      )
