-- ===== src/Filter/Fill/Willing.antt =====
-- Generators with which `FillEmptySlots` of paired_vlse/include/paired_vacuum_filter.h
-- ends normally.
use vlse.Base.{
  ℕ, zero, suc, ◌+◌, ◌≡◌, refl, sym, false, ◌==◌, if◌then◌else◌, [], ◌∷◌, Result, ok, throw,
  logic_error, Returns, Bool-cases, inl, inr, subst, u64,
}
use vlse.Filter.Bucket.{Record, Bucket, is_occupied}
use vlse.Filter.Fill.{
  Generators, draw_fingerprint, fill_record, fill_bucket, fill_next, fill_buckets, end_fill,
  fill_empty_slots,
}
use vlse.Filter.Invariant.{IsFilter}
use vlse.Filter.State.{Setting, Filter, Journaled, read, journal_write}
use vlse.Filter.Fill.Completed.{IsPadded, fill_empty_slots-IsPadded}

-- From every state the drawing of a fingerprint ends in an accepted one, and the payload generator
-- returns.
pub record IsWilling (c : Setting) (g : Generators c.Payload) : Type 0 where
  pub draws : (state : g.State) → Returns (draw_fingerprint c g g.rejections state) (λ _. Unit {0})
  pub pays : (state : g.State) → Returns (g.payload state) (λ _. Unit {0})

module _ (c : Setting) (g : Generators c.Payload) (willing : IsWilling c g) where
  open c use {Payload}
  open g use {State}

  fill_record-Returns :
      (entry : Record Payload) (state : State)
      → Returns (fill_record c g entry state) (λ _. Unit {0})
  unfolding fill_record
  fill_record-Returns entry state = elim (Bool-cases (is_occupied entry)) [
    | inl taken ↦ ((entry, state), rw taken, tt)
    | inr empty ↦
        let (candidate, drawn, t) = willing.draws state in
        let (payload, paid, u) = willing.pays candidate.1 in
        (
          (record { fingerprint = candidate.0; payload = payload.0 }, payload.1),
          rw (empty, drawn, paid),
          tt,
        )
  ]

  fill_bucket-Returns :
      (records : Bucket Payload) (state : State)
      → Returns (fill_bucket c g records state) (λ _. Unit {0})
  unfolding fill_bucket
  fill_bucket-Returns [] state = (record { bucket = []; state = state; generated = 0 }, refl, tt)
  fill_bucket-Returns (entry ∷ records) state =
      let (filled, run, t) = fill_record-Returns entry state in
      let (rest, again, u) = fill_bucket-Returns records filled.1 in
      (
        record {
          bucket = filled.0 ∷ rest.bucket;
          state = rest.state;
          generated = (if is_occupied entry then 0 else 1) + rest.generated;
        },
        rw (run, again),
        tt,
      )

  fill_buckets-Returns :
      (remaining bucket_index : ℕ) (j : Journaled c) (state : State) (generated : ℕ)
      → Returns (fill_buckets c g remaining bucket_index j state generated).1 (λ _. Unit {0})
  unfolding fill_buckets fill_next
  fill_buckets-Returns zero bucket_index j state generated = (_, refl, tt)
  fill_buckets-Returns (suc remaining) bucket_index j state generated =
      let (filling, run, t) = fill_bucket-Returns (read c j.store bucket_index) state in
      let (done, later, u) =
        fill_buckets-Returns remaining (suc bucket_index)
          (if filling.generated == 0 then j else journal_write c bucket_index filling.bucket j)
          filling.state (u64 (generated + filling.generated)) in
      (done, rw run later, tt)

  -- If in every state of the generators a fingerprint that is allowed and not zero comes within the
  -- bounded number of draws, and a payload comes too, then filling the empty slots of a filter that
  -- satisfies the invariant and is not padded ends normally, in a padded filter with every slot
  -- counted that satisfies the invariant.
  pub fill_empty_slots-Returns :
      (s : Filter c) (state : State)
      → IsFilter c s
      → s.padded ≡ false
      → Returns
          (fill_empty_slots c g s state).1
          (λ done. IsPadded c g s (fill_empty_slots c g s state).0 done.0)
  unfolding fill_empty_slots end_fill
  fill_empty_slots-Returns s state v unpadded =
      let (done, run) = completed in (done, run, fill_empty_slots-IsPadded c g s state done v run)
    where
      ended :
          (r : Journaled c × Result (State × ℕ)) (done : State × ℕ)
          → r.1 ≡ ok done
          → (end_fill c g s r).1 ≡ ok (done.1, done.0)
      ended (j, throw error) done h = absurd cc
      ended (j, ok (state', generated)) done h = cc

      completed : (done : ℕ × State) × ((fill_empty_slots c g s state).1 ≡ ok done)
      completed =
          let (done, run, t) =
            fill_buckets-Returns s.layout.bucket_count 0 (record { store = s.store; journal = [] })
              state 0 in
          let rounds : Journaled c × Result (State × ℕ) =
            fill_buckets c g s.layout.bucket_count 0 (record { store = s.store; journal = [] })
              state 0 in
          (
            (done.1, done.0),
            subst
                (λ b.
                  (if b then (s, throw logic_error) else end_fill c g s rounds).1
                  ≡ ok (done.1, done.0))
                (sym unpadded) (ended rounds done run),
          )
