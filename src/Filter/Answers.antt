-- ===== src/Filter/Answers.antt =====
-- The payloads that a query finds as a count over the whole table.
use vlse.Base.{
  ℕ, zero, suc, ◌+◌, ◌<◌, ◌≡◌, ◌≢◌, refl, sym, ap, ap₂, ◌∙◌, arith, Bool, ◌&&◌, ◌||◌, ◌==◌, to_nat,
  if◌then◌else◌, List, [], ◌∷◌, ◌++◌, Bool-cases, inl, inr, ◌⊎◌, ==→eq, ==→ne, ℕ_discrete, ne→==,
  eq→==,
}
use vlse.Filter.Bucket.{Record, Bucket}
use vlse.Filter.Bucket.Laws.{count}
use vlse.Filter.Metadata.{IsMetadata}
use vlse.Filter.Query.Laws.{matches, found}
use vlse.Filter.State.Alternate.{alternate-alternate}
use vlse.Filter.State.{Setting, Layout, KeyMetadata, Filter, alternate, read}
use vlse.Filter.Total.{IsMovable, total, sum_below, sum_below_update}

-- The payloads of a list that pass a test.
unfoldable pub count_if : {A : Type 0} → (A → Bool) → List A → ℕ
count_if pick [] = 0
count_if pick (x ∷ xs) = to_nat (pick x) + count_if pick xs

count_if-append :
    {A : Type 0} (pick : A → Bool) (xs ys : List A)
    → count_if pick (xs ++ ys) ≡ count_if pick xs + count_if pick ys
unfolding count_if
count_if-append pick [] ys = omega arith
count_if-append pick (x ∷ xs) ys = omega (arith, count_if-append pick xs ys)

-- A record that a query with this metadata returns, and whose payload passes the test.
unfoldable pub answers :
    {Payload : Type 0} → KeyMetadata → (Payload → Bool) → ℕ → Record Payload → Bool
answers m pick p r =
    r.fingerprint == m.fingerprint
    && ((p == m.first_bucket || p == m.second_bucket) && pick r.payload)

pub answers-IsMovable :
    (c : Setting) (layout : Layout) (m : KeyMetadata) (pick : c.Payload → Bool)
    → IsMetadata c.fingerprint_bits layout m
    → IsMovable c layout (answers m pick)
unfolding answers
answers-IsMovable c layout m pick v = record {
  rejects = λ p r e. ground (arith, v.nonzero);
  moves = λ p r. elim (Bool-cases (r.fingerprint == m.fingerprint)) [
    | inr other ↦ rw other
    | inl same ↦
        let e : r.fingerprint ≡ m.fingerprint = ==→eq _ _ same in
        rw same (
          ap (λ b. b && pick r.payload)
            (ap
                (λ f.
                  alternate layout p f == m.first_bucket || alternate layout p f == m.second_bucket)
                e
              ∙ sides p))
  ];
}
  where
    there : (p : ℕ) → alternate layout p m.fingerprint ≡ m.first_bucket → p ≡ m.second_bucket
    there p h =
        sym (alternate-alternate layout p m.fingerprint)
        ∙ ap (λ q. alternate layout q m.fingerprint) h
        ∙ sym v.paired

    back : (p : ℕ) → alternate layout p m.fingerprint ≡ m.second_bucket → p ≡ m.first_bucket
    back p h =
        sym (alternate-alternate layout p m.fingerprint)
        ∙ ap (λ q. alternate layout q m.fingerprint) (h ∙ v.paired)
        ∙ alternate-alternate layout m.first_bucket m.fingerprint

    second_to_first : alternate layout m.second_bucket m.fingerprint ≡ m.first_bucket
    second_to_first =
        ap (λ q. alternate layout q m.fingerprint) v.paired
        ∙ alternate-alternate layout m.first_bucket m.fingerprint

    sides :
        (p : ℕ)
        → (alternate layout p m.fingerprint == m.first_bucket
            || alternate layout p m.fingerprint == m.second_bucket)
          ≡ (p == m.first_bucket || p == m.second_bucket)
    sides p = elim (ℕ_discrete p m.first_bucket) [
      | yes e ↦ rw (e, ← v.paired) (ground arith)
      | no ne ↦ elim (ℕ_discrete p m.second_bucket) [
        | yes e ↦ rw (e, second_to_first) (ground arith)
        | no ne' ↦ rw (
          ne→== p m.first_bucket ne,
          ne→== p m.second_bucket ne',
          ne→== (alternate layout p m.fingerprint) m.first_bucket (λ h. ne' (there p h)),
          ne→== (alternate layout p m.fingerprint) m.second_bucket (λ h. ne (back p h)),
        )
      ]
    ]

-- A sum with one term, and with two.
sum_below_zero : (n : ℕ) → sum_below n (λ _. 0) ≡ 0
unfolding sum_below
sum_below_zero zero = refl
sum_below_zero (suc n) = omega (arith, sum_below_zero n)

sum_below_one :
    (n : ℕ) (g : ℕ → ℕ) (a : ℕ) → a < n → ((i : ℕ) → a ≢ i → g i ≡ 0) → sum_below n g ≡ g a
sum_below_one n g a l h =
    omega (arith, sum_below_update n g (λ _. 0) a l (λ i _ ne. h i ne), sum_below_zero n)

sum_below_two :
    (n : ℕ) (g : ℕ → ℕ) (a b : ℕ)
    → a < n
    → b < n
    → a ≢ b
    → ((i : ℕ) → a ≢ i → b ≢ i → g i ≡ 0)
    → sum_below n g ≡ g a + g b
sum_below_two n g a b la lb ne h =
    let rest : ℕ → ℕ = λ i. if b == i then 0 else g i in
    let alone : sum_below n rest ≡ rest a = sum_below_one n rest a la (λ i apart.
      elim (ℕ_discrete b i) [
        | yes e ↦ rw (eq→== b i e)
        | no away ↦ rw (ne→== b i away) (h i apart away)
      ]) in
    let at_a : rest a ≡ g a = rw (ne→== b a (λ e. ne (sym e))) in
    let at_b : rest b ≡ 0 = rw (eq→== b b refl) in
    omega
      (arith, alone, at_a, at_b, sum_below_update n g rest b lb (λ i _ away. rw (ne→== b i away)))

module _ (c : Setting) (pick : c.Payload → Bool) (m : KeyMetadata) where
  open c use {Payload}

  -- In a candidate bucket the answering records are the picked matches; elsewhere there are none.
  count-answers :
      (p : ℕ) (b : Bucket Payload)
      → (p ≡ m.first_bucket) ⊎ (p ≡ m.second_bucket)
      → count (answers m pick p) b ≡ count_if pick (matches m.fingerprint b)
  unfolding count count_if matches answers
  count-answers p [] side = refl
  count-answers p (r ∷ b) side = ground (arith, count-answers p b side)

  count-answers_elsewhere :
      (p : ℕ) (b : Bucket Payload)
      → m.first_bucket ≢ p
      → m.second_bucket ≢ p
      → count (answers m pick p) b ≡ 0
  unfolding count answers
  count-answers_elsewhere p [] ne ne' = refl
  count-answers_elsewhere p (r ∷ b) ne ne' = ground (arith, count-answers_elsewhere p b ne ne')

  pub total-answers :
      (s : Filter c)
      → m.first_bucket < s.layout.bucket_count
      → m.second_bucket < s.layout.bucket_count
      → total c s.layout.bucket_count (answers m pick) s.store ≡ count_if pick (found c s m)
  unfolding total found
  total-answers s first second =
      let n : ℕ = s.layout.bucket_count in
      let g : ℕ → ℕ = λ q. count (answers m pick q) (read c s.store q) in
      let at_first = count-answers m.first_bucket (read c s.store m.first_bucket) (inl refl) in
      let at_second = count-answers m.second_bucket (read c s.store m.second_bucket) (inr refl) in
      elim (Bool-cases (m.second_bucket == m.first_bucket)) [
        | inl same ↦
            let e : m.second_bucket ≡ m.first_bucket = ==→eq _ _ same in
            rw same (
              sum_below_one n g m.first_bucket first
                (λ i ne. count-answers_elsewhere i (read c s.store i) ne (λ h. ne (sym e ∙ h)))
              ∙ at_first)
        | inr apart ↦
            let ne : m.second_bucket ≢ m.first_bucket = ==→ne _ _ apart in
            rw apart (
              sum_below_two n g m.first_bucket m.second_bucket first second (λ h. ne (sym h))
                (λ i a b. count-answers_elsewhere i (read c s.store i) a b)
              ∙ ap₂ ◌+◌ at_first at_second
              ∙ sym (count_if-append pick _ _))
      ]

pub found_congr :
    (c : Setting) (m : KeyMetadata) (s t : Filter c)
    → read c s.store m.first_bucket ≡ read c t.store m.first_bucket
    → read c s.store m.second_bucket ≡ read c t.store m.second_bucket
    → found c s m ≡ found c t m
unfolding found
found_congr c m s t e h = rw (e, h)
