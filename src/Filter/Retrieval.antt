-- ===== src/Filter/Retrieval.antt =====
-- `Insert` and `QueryAll` of paired_vlse/include/paired_vacuum_filter.h together.
use vlse.Base.{
  ℕ, ◌+◌, ◌<◌, ◌≡◌, refl, sym, ap, ◌∙◌, Bool, true, false, ◌&&◌, ◌||◌, ◌==◌, to_nat, Returns, ok,
  subst,
}
use vlse.Filter.Answers.{count_if, answers, answers-IsMovable, total-answers, found_congr}
use vlse.Filter.Insert.Evictions.{IsInserted}
use vlse.Filter.Insert.Laws.{insert-IsInserted}
use vlse.Filter.Insert.{insert}
use vlse.Filter.Invariant.{IsFilter}
use vlse.Filter.Metadata.{IsMetadata, metadata-IsMetadata, metadata_congr}
use vlse.Filter.Query.Laws.{found, query_all-found}
use vlse.Filter.Query.{query_all}
use vlse.Filter.State.Alternate.{alternate-lt}
use vlse.Filter.State.{Setting, KeyMetadata, Filter, metadata}
use vlse.Filter.Total.{total}

module _ (c : Setting) (s : Filter c) (v : IsFilter c s) (unpadded : s.padded ≡ false) (token : ℕ)
    (payload : c.Payload) (m : KeyMetadata) (known : metadata c s token ≡ ok m) where
  open c use {Payload, fingerprint_bits}

  abbrev placed : IsMetadata fingerprint_bits s.layout m
  placed = metadata-IsMetadata c s token v.laid v.sized known

  inserted : Returns (insert c s token payload) (
      IsInserted c s v.laid v.sized m.first_bucket
        (record { fingerprint = m.fingerprint; payload = payload }))
  inserted = insert-IsInserted c s v m placed payload token unpadded known

  IsInserted-as :
      (r : Bool × Filter c)
      → insert c s token payload ≡ ok r
      → IsInserted c s v.laid v.sized m.first_bucket
          (record { fingerprint = m.fingerprint; payload = payload })
          r
  IsInserted-as r e =
      let (r', run, i) = inserted in
      let same : r' ≡ r = cc in
      subst
        (IsInserted c s v.laid v.sized m.first_bucket
          (record { fingerprint = m.fingerprint; payload = payload }))
        same i

  -- In a filter that satisfies the invariant and is not padded, after an insertion that succeeds,
  -- every token whose metadata are computed finds, counted by any test on payloads, the payloads
  -- that it found before, and the new one exactly if its fingerprint is the new record's and the
  -- new record's first bucket is one of its two.
  pub query_all-insert :
      (s' : Filter c) (other : ℕ) (m' : KeyMetadata) (pick : Payload → Bool)
      → metadata c s other ≡ ok m'
      → insert c s token payload ≡ ok (true, s')
      → Returns (query_all c s other) λ before. Returns (query_all c s' other) λ after.
        count_if pick after
        ≡ count_if pick before
          + to_nat (
              m.fingerprint == m'.fingerprint
              && ((m.first_bucket == m'.first_bucket || m.first_bucket == m'.second_bucket)
                  && pick payload))
  query_all-insert s' other m' pick known' e =
      let i = IsInserted-as (true, s') e in
      let placed' = metadata-IsMetadata c s other v.laid v.sized known' in
      let n : ℕ = s.layout.bucket_count in
      let second : m'.second_bucket < n =
        rw placed'.paired
          (alternate-lt s.layout m'.first_bucket m'.fingerprint v.laid placed'.first) in
      let known'' : metadata c s' other ≡ ok m' =
        metadata_congr c s' s other i.same_layout i.same_seed ∙ known' in
      (
        found c s m',
        query_all-found c s other m' known',
        (
          found c s' m',
          query_all-found c s' other m' known'',
          sym (
                total-answers c pick m' s' (rw i.same_layout placed'.first)
                  (rw i.same_layout second))
              ∙ ap (λ l. total c l.bucket_count (answers m' pick) s'.store) i.same_layout
              ∙ i.grown refl (answers m' pick) (answers-IsMovable c s.layout m' pick placed')
              ∙ ap
                  (λ t.
                    t
                    + to_nat (
                        answers m' pick m.first_bucket
                          (record { fingerprint = m.fingerprint; payload = payload })))
                  (total-answers c pick m' s placed'.first second)
              ∙ (unfold answers in refl),
        ),
      )

  -- In a filter that satisfies the invariant and is not padded, after an insertion that returns
  -- false, every token whose metadata are computed finds the same payloads in the same order as
  -- before, and the number of filled slots is unchanged.
  pub query_all-insert_failed :
      (s' : Filter c) (other : ℕ) (m' : KeyMetadata)
      → metadata c s other ≡ ok m'
      → insert c s token payload ≡ ok (false, s')
      → (query_all c s' other ≡ query_all c s other) × (s'.filled_slots ≡ s.filled_slots)
  query_all-insert_failed s' other m' known' e =
      let i = IsInserted-as (false, s') e in
      let placed' = metadata-IsMetadata c s other v.laid v.sized known' in
      let second : m'.second_bucket < s.layout.bucket_count =
        rw placed'.paired
          (alternate-lt s.layout m'.first_bucket m'.fingerprint v.laid placed'.first) in
      let known'' : metadata c s' other ≡ ok m' =
        metadata_congr c s' s other i.same_layout i.same_seed ∙ known' in
      (
        query_all-found c s' other m' known''
            ∙ ap ok (
                found_congr c m' s' s (i.restored refl m'.first_bucket placed'.first)
                  (i.restored refl m'.second_bucket second))
            ∙ sym (query_all-found c s other m' known'),
        i.unfilled refl,
      )
