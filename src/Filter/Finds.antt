-- ===== src/Filter/Finds.antt =====
-- That a query finds a payload, along `Insert` and `FillEmptySlots` of
-- paired_vlse/include/paired_vacuum_filter.h, for runs of several operations.
use vlse.Base.{
  ℕ, ◌<◌, ◌≡◌, refl, ap, ◌∙◌, arith, Bool, true, false, ◌&&◌, ◌||◌, ◌==◌, ==_refl, ne→==, ◌+◌,
  to_nat, leb, if-cases, inl, inr, List, ok, Returns, >>=-eq-ok, subst,
}
use vlse.Filter.Answers.{count_if}
use vlse.Filter.Fill.Retrieval.{query_all-fill_empty_slots}
use vlse.Filter.Fill.{Generators, fill_empty_slots}
use vlse.Filter.Insert.Laws.{insert-IsInserted, inserted-IsFilter}
use vlse.Filter.Insert.{insert, insert_unpadded}
use vlse.Filter.Insert.Evictions.{IsInserted}
use vlse.Filter.Invariant.{IsFilter, occupied_anywhere, occupied-IsMovable}
use vlse.Filter.Total.{total}
use vlse.Filter.Metadata.{metadata-IsMetadata}
use vlse.Filter.Query.{query_all, query_into}
use vlse.Filter.Retrieval.{query_all-insert}
use vlse.Filter.State.{Setting, Layout, KeyMetadata, Filter, metadata, capacity}

module _ (c : Setting) where
  open c use {Payload}

  abbrev pub Finds : Filter c → ℕ → (Payload → Bool) → Type 0
  Finds s token pick = Returns (query_all c s token) (λ payloads. 0 < count_if pick payloads)

  query_all-known :
      (s : Filter c) (token : ℕ) (payloads : List Payload)
      → query_all c s token ≡ ok payloads
      → (m : KeyMetadata) × (metadata c s token ≡ ok m)
  unfolding query_all query_into
  query_all-known s token payloads e =
      let (r, run, _) = >>=-eq-ok _ _ e in let (m, known, _) = >>=-eq-ok _ _ run in (m, known)

  insert-known :
      (s s' : Filter c) (token : ℕ) (payload : Payload)
      → insert c s token payload ≡ ok (true, s')
      → (m : KeyMetadata) × (metadata c s token ≡ ok m)
  unfolding insert insert_unpadded
  insert-known s s' token payload e = elim (if-cases s.padded _ _ _ e) [
    | inl padded ↦ absurd cc
    | inr unpadded ↦ elim (if-cases (leb (capacity c s) s.filled_slots) _ _ _ unpadded) [
      | inl full ↦ absurd cc
      | inr run ↦ let (m, known, _) = >>=-eq-ok _ _ run in (m, known)
    ]
  ]

  -- The filter after a run still satisfies the invariant and takes records, and finds what it
  -- found before.
  pub record IsKept (s s' : Filter c) : Type 0 where
    pub valid : IsFilter c s'
    pub unpadded : s'.padded ≡ false
    pub same_layout : s'.layout ≡ s.layout
    pub finds : (token : ℕ) (pick : Payload → Bool) → Finds s token pick → Finds s' token pick

  pub insert-IsKept :
      (s s' : Filter c) (token : ℕ) (payload : Payload)
      → IsFilter c s
      → s.padded ≡ false
      → insert c s token payload ≡ ok (true, s')
      → IsKept s s'
        × (s'.filled_slots ≡ s.filled_slots + 1)
        × ((pick : Payload → Bool) → pick payload ≡ true → Finds s' token pick)
  insert-IsKept s s' token payload v unpadded e =
      let (m, known) = insert-known s s' token payload e in
      let placed = metadata-IsMetadata c s token v.laid v.sized known in
      let (r, run, i) = insert-IsInserted c s v m placed payload token unpadded known in
      let same : r ≡ (true, s') = cc in
      let as_inserted =
        subst
          (IsInserted c s v.laid v.sized m.first_bucket
            (record { fingerprint = m.fingerprint; payload = payload }))
          same i in
      let valid : IsFilter c s' = inserted-IsFilter c s v m placed payload (true, s') as_inserted in
      (
        record {
          valid = valid;
          unpadded = as_inserted.same_padding ∙ unpadded;
          same_layout = as_inserted.same_layout;
          finds = λ other pick (payloads, query, found).
              let (m', known') = query_all-known s other payloads query in
              let (before, first, (after, then, grown)) =
                query_all-insert c s v unpadded token payload m known s' other m' pick known' e in
              let agree : before ≡ payloads = cc in
              (after, then, omega (arith, grown, found, ap (count_if pick) agree));
        },
        let counts : to_nat (
                  occupied_anywhere m.first_bucket
                    (record { fingerprint = m.fingerprint; payload = payload }))
                ≡ 1 =
              unfold occupied_anywhere in rw (ne→== m.fingerprint 0 placed.nonzero) refl in
            omega (
              arith,
              valid.counted,
              v.counted,
              ap (λ (t : Layout). total c t.bucket_count occupied_anywhere s'.store)
                  as_inserted.same_layout,
              as_inserted.grown refl occupied_anywhere (occupied-IsMovable c s.layout),
              counts,
            ),
        λ pick picked.
            let (before, first, (after, then, grown)) =
              query_all-insert c s v unpadded token payload m known s' token m pick known e in
            let one : to_nat (
                  m.fingerprint == m.fingerprint
                  && ((m.first_bucket == m.first_bucket || m.first_bucket == m.second_bucket)
                      && pick payload))
                ≡ 1 =
              rw (==_refl m.fingerprint, ==_refl m.first_bucket, picked) refl in
            (after, then, omega (arith, grown, one)),
      )

  pub fill_empty_slots-Finds :
      (g : Generators Payload) (s : Filter c) (state : g.State) (done : ℕ × g.State) (token : ℕ)
      (pick : Payload → Bool)
      → IsFilter c s
      → (fill_empty_slots c g s state).1 ≡ ok done
      → Finds s token pick
      → Finds (fill_empty_slots c g s state).0 token pick
  fill_empty_slots-Finds g s state done token pick v e (payloads, query, found) =
      let (m, known) = query_all-known s token payloads query in
      let (before, first, (after, then, grown)) =
        query_all-fill_empty_slots c g s state done token m pick v known e in
      let agree : before ≡ payloads = cc in
      (after, then, omega (arith, grown, found, ap (count_if pick) agree))
