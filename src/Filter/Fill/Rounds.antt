-- ===== src/Filter/Fill/Rounds.antt =====
-- The loop over the buckets in `FillEmptySlots` of paired_vlse/include/paired_vacuum_filter.h,
-- when no generator throws.
use vlse.Base.{
  ℕ, zero, suc, ◌+◌, ◌*◌, ◌^◌, ◌≤◌, ◌<◌, ◌≡◌, refl, sym, ap, ◌∙◌, arith, Bool, true, false, ◌==◌,
  if◌then◌else◌, length, Result, ok, throw, subst, ℕ_discrete, ==→eq, eq→==, ne→==, u64,
}
use vlse.Filter.Bucket.{Record, Bucket, is_occupied, occupied, slots_per_bucket, stable_sort}
use vlse.Filter.Bucket.Laws.{count, occupied-count, count-stable_sort}
use vlse.Filter.Fill.Records.{IsRefilling, fill_bucket-IsRefilling}
use vlse.Filter.Fill.{Generators, Filling, fill_bucket, fill_next, fill_buckets}
use vlse.Filter.Invariant.{occupied_anywhere, total-occupied-le}
use vlse.Filter.State.Journal.{
  IsBucket, IsUndoable, journal_write-IsUndoable, read-IsBucket, read-write,
}
use vlse.Filter.State.{Setting, Journaled, read, write, journal_write}
use vlse.Filter.Store.Fields.{IsSized}
use vlse.Filter.Store.{Store}
use vlse.Filter.Total.{total, total-write, sum_below}

module _ (c : Setting) (g : Generators c.Payload) (n : ℕ) (sized : IsSized c.fingerprint_bits n)
    (origin : Store c.Payload) where
  open c use {Payload, fingerprint_bits}
  open g use {State}

  -- The table after the buckets below an index: those are full, the records of the origin are there,
  -- and the occupied slots are those of the origin and the generated ones.
  pub record IsFilled (bucket_index : ℕ) (j : Journaled c) (generated : ℕ) : Type 0 where
    pub undoable : IsUndoable c n origin j
    pub full : (q : ℕ) → q < bucket_index → occupied (read c j.store q) ≡ slots_per_bucket
    pub grown :
        (sees : ℕ → Record Payload → Bool)
        → ((p : ℕ) (r : Record Payload) → r.fingerprint ≡ 0 → sees p r ≡ false)
        → total c n sees origin ≤ total c n sees j.store
    pub counted :
        total c n occupied_anywhere j.store ≡ total c n occupied_anywhere origin + generated

  count-occupied : (p : ℕ) (b : Bucket Payload) → count (occupied_anywhere p) b ≡ occupied b
  unfolding occupied_anywhere
  count-occupied p b = sym (occupied-count b)

  occupied-stable_sort : (b : Bucket Payload) → occupied (stable_sort b) ≡ occupied b
  occupied-stable_sort b =
      occupied-count (stable_sort b) ∙ count-stable_sort is_occupied b ∙ sym (occupied-count b)

  module _ (bucket_index generated : ℕ) (j : Journaled c) (below : bucket_index < n)
      (v : IsFilled bucket_index j generated) (filling : Filling c g)
      (w : IsRefilling c g n sized (read c j.store bucket_index) filling) where
    abbrev bucket : Bucket Payload
    bucket = read c j.store bucket_index

    filled : IsBucket c n filling.bucket
    filled =
        let before = read-IsBucket c n sized j.store bucket_index v.undoable.table in
        record { full = w.full ∙ before.full; small = w.small }

    four : length bucket ≡ slots_per_bucket
    four = (read-IsBucket c n sized j.store bucket_index v.undoable.table).full

    changed :
        (sees : ℕ → Record Payload → Bool)
        → total c n sees (write c j.store bucket_index filling.bucket)
            + count (sees bucket_index) bucket
          ≡ total c n sees j.store + count (sees bucket_index) filling.bucket
    changed sees =
        total-write c n sized sees j.store bucket_index filling.bucket v.undoable.table below filled

    unchanged-IsFilled :
        filling.generated ≡ 0 → IsFilled (suc bucket_index) j (generated + filling.generated)
    unchanged-IsFilled none_generated = record {
      undoable = v.undoable;
      full = λ q inside. elim (ℕ_discrete q bucket_index) [
        | yes here ↦ rw here (omega (arith, w.generated, four))
        | no other ↦ v.full q (omega arith)
      ];
      grown = v.grown;
      counted = omega (arith, v.counted);
    }

    written-IsFilled :
        IsFilled
          (suc bucket_index)
          (journal_write c bucket_index filling.bucket j)
          (generated + filling.generated)
    unfolding journal_write
    written-IsFilled = record {
      undoable =
          journal_write-IsUndoable c n sized origin j bucket_index filling.bucket v.undoable below
            filled;
      full = λ q inside.
          let reading =
            read-write c n sized j.store bucket_index q filling.bucket v.undoable.table below
              (omega arith) filled in
          elim (ℕ_discrete q bucket_index) [
            | yes here ↦
                ap occupied (reading ∙ rw (eq→== bucket_index q (sym here)))
                ∙ occupied-stable_sort filling.bucket
                ∙ w.taken
                ∙ four
            | no other ↦
                ap occupied (reading ∙ rw (ne→== bucket_index q (λ e. other (sym e))))
                ∙ v.full q (omega arith)
          ];
      grown = λ sees rejects. omega (
        arith,
        changed sees,
        v.grown sees rejects,
        w.grown (sees bucket_index) (rejects bucket_index),
      );
      counted = omega (
        arith,
        changed occupied_anywhere,
        v.counted,
        w.generated,
        w.taken,
        count-occupied bucket_index bucket,
        count-occupied bucket_index filling.bucket,
      );
    }

  -- Rounds of the loop that all end normally.
  pub fill_buckets-IsFilled :
      (remaining bucket_index : ℕ) (j : Journaled c) (state : State) (generated : ℕ)
      (done : State × ℕ)
      → bucket_index + remaining ≡ n
      → n * slots_per_bucket < 2 ^ 64
      → IsFilled bucket_index j generated
      → (fill_buckets c g remaining bucket_index j state generated).1 ≡ ok done
      → IsFilled n (fill_buckets c g remaining bucket_index j state generated).0 done.1
  unfolding fill_buckets fill_next
  fill_buckets-IsFilled zero bucket_index j state generated done last fits v e =
      let here : bucket_index ≡ n = omega arith in
      let same : generated ≡ done.1 = cc in
      subst (λ k. IsFilled k j done.1) here (subst (IsFilled bucket_index j) same v)
  fill_buckets-IsFilled (suc remaining) bucket_index j state generated done last fits v e =
      next
        (λ j' state' generated' v' e'.
          fill_buckets-IsFilled remaining (suc bucket_index) j' state' generated' done (omega arith)
            fits v' e')
        _ refl e
    where
      kept_or_written :
          (b : Bool) (filling : Filling c g)
          → (filling.generated == 0) ≡ b
          → IsRefilling c g n sized (read c j.store bucket_index) filling
          → IsFilled
              (suc bucket_index)
              (if b then j else journal_write c bucket_index filling.bucket j)
              (generated + filling.generated)
      kept_or_written true filling h w =
          unchanged-IsFilled bucket_index generated j (omega arith) v filling w (==→eq _ _ h)
      kept_or_written false filling h w =
          written-IsFilled bucket_index generated j (omega arith) v filling w

      next :
          ((j' : Journaled c) (state' : State) (generated' : ℕ)
            → IsFilled (suc bucket_index) j' generated'
            → (fill_buckets c g remaining (suc bucket_index) j' state' generated').1 ≡ ok done
            → IsFilled n
                (fill_buckets c g remaining (suc bucket_index) j' state' generated').0
                done.1)
          → (r : Result (Filling c g)) → fill_bucket c g (read c j.store bucket_index) state ≡ r
          → (fill_next c g
              (fill_buckets c g remaining (suc bucket_index))
              bucket_index
              j
              generated
              r).1
            ≡ ok done
          → IsFilled n
              (fill_next c g
                (fill_buckets c g remaining (suc bucket_index))
                bucket_index
                j
                generated
                r).0
              done.1
      next later (throw error) run h = absurd cc
      next later (ok filling) run h =
          let before = read-IsBucket c n sized j.store bucket_index v.undoable.table in
          let w =
            fill_bucket-IsRefilling c g n sized (read c j.store bucket_index) state filling
              before.small run in
          let u = kept_or_written (filling.generated == 0) filling refl w in
          let after : Journaled c =
            if filling.generated == 0 then j else journal_write c bucket_index filling.bucket j in
          let whole : u64 (generated + filling.generated) ≡ generated + filling.generated =
            omega (arith, u.counted, total-occupied-le c n after.store) in
          later after filling.state (u64 (generated + filling.generated))
            (subst (IsFilled (suc bucket_index) after) (sym whole) u) h

-- Buckets that are all full make a full table.
pub total-occupied_full :
    (c : Setting) (n : ℕ) (store : Store c.Payload)
    → ((q : ℕ) → q < n → occupied (read c store q) ≡ slots_per_bucket)
    → total c n occupied_anywhere store ≡ n * slots_per_bucket
unfolding total sum_below occupied_anywhere
total-occupied_full c zero store full = omega arith
total-occupied_full c (suc n) store full = omega (
  arith,
  total-occupied_full c n store (λ q below. full q (omega arith)),
  full n (omega arith),
  occupied-count (read c store n),
)
