-- ===== src/Filter/Fill/Laws.antt =====
-- Lemmas on the loops of `FillEmptySlots` of paired_vlse/include/paired_vacuum_filter.h and its
-- handler.

use vlse.Base.{
  ℕ, zero, suc, ◌+◌, ◌≤◌, ◌≡◌, refl, ◌∙◌, arith, Bool, true, false, ◌==◌, if◌then◌else◌, [], Result,
  ok, throw, logic_error, Error,
}
use vlse.Filter.Bucket.{Bucket}
use vlse.Filter.Fill.Records.{fill_bucket-IsRefilling}
use vlse.Filter.Fill.{
  Generators, Filling, fill_bucket, fill_next, fill_buckets, end_fill, fill_empty_slots,
}
use vlse.Filter.Invariant.{IsFilter}
use vlse.Filter.State.Journal.{
  IsBucket, IsTable, SameReads, IsUndoable, journal_write-IsUndoable, read-IsBucket,
  roll_back-IsTable,
}
use vlse.Filter.State.{Setting, Filter, Journaled, read, journal_write, roll_back}
use vlse.Filter.Store.{Store}
use vlse.Filter.Store.Fields.{IsSized}

module _ (c : Setting) (g : Generators c.Payload) (n : ℕ)
    (sized : IsSized c.fingerprint_bits n) where
  open c use {Payload, fingerprint_bits}
  open g use {State}

  -- Every round leaves a table with a journal that leads back to the table before the loop.
  pub fill_buckets-IsUndoable :
      (remaining bucket_index : ℕ) (origin : Store Payload) (j : Journaled c) (state : State)
      (generated : ℕ)
      → bucket_index + remaining ≤ n
      → IsUndoable c n origin j
      → IsUndoable c n origin (fill_buckets c g remaining bucket_index j state generated).0
  unfolding fill_buckets fill_next
  fill_buckets-IsUndoable zero bucket_index origin j state generated within u = u
  fill_buckets-IsUndoable (suc remaining) bucket_index origin j state generated within u =
      next
        (λ j' state' generated' u'.
          fill_buckets-IsUndoable remaining (suc bucket_index) origin j' state' generated'
            (omega arith) u')
        _ refl
    where
      bucket : Bucket Payload
      bucket = read c j.store bucket_index

      written :
          (b : Bool) (b' : Bucket Payload)
          → IsBucket c n b'
          → IsUndoable c n origin (if b then j else journal_write c bucket_index b' j)
      written true b' v = u
      written false b' v =
          journal_write-IsUndoable c n sized origin j bucket_index b' u (omega arith) v

      next :
          ((j' : Journaled c) (state' : State) (generated' : ℕ)
            → IsUndoable c n origin j'
            → IsUndoable c n origin
                (fill_buckets c g remaining (suc bucket_index) j' state' generated').0)
          → (r : Result (Filling c g)) → fill_bucket c g bucket state ≡ r
          → IsUndoable c n origin
              (fill_next c g
                (fill_buckets c g remaining (suc bucket_index))
                bucket_index
                j
                generated
                r).0
      next later (throw error) run = u
      next later (ok filling) run =
          let v = read-IsBucket c n sized j.store bucket_index u.table in
          let w = fill_bucket-IsRefilling c g n sized bucket state filling v.small run in
          later _ filling.state _ (
            written (filling.generated == 0) filling.bucket
              (record { full = w.full ∙ v.full; small = w.small }))

module _ (c : Setting) (g : Generators c.Payload) where
  open c use {Payload}
  open g use {State}

  -- What the handler leaves when a generator throws.
  pub record IsUntouched (s s' : Filter c) : Type 0 where
    pub table : IsTable c s.layout.bucket_count s'.store
    pub reads : SameReads c s.layout.bucket_count s'.store s.store
    pub same_layout : s'.layout ≡ s.layout
    pub same_filled : s'.filled_slots ≡ s.filled_slots
    pub same_padded : s'.padded ≡ s.padded
    pub same_statistics : s'.statistics ≡ s.statistics

  -- When filling the empty slots of a filter that satisfies the invariant ends in an exception,
  -- because a generator threw or the filter was padded already, every bucket reads as before, the
  -- table is still well formed, and the layout, the slot count, the flag and the statistics are
  -- unchanged.
  pub fill_empty_slots-IsUntouched :
      (s : Filter c) (state : State) (error : Error)
      → IsFilter c s
      → (fill_empty_slots c g s state).1 ≡ throw error
      → IsUntouched s (fill_empty_slots c g s state).0
  unfolding fill_empty_slots end_fill
  fill_empty_slots-IsUntouched s state error v e = padded_or s.padded e
    where
      n : ℕ
      n = s.layout.bucket_count

      start : Journaled c
      start = record { store = s.store; journal = [] }

      undoable : IsUndoable c n s.store (fill_buckets c g n 0 start state 0).0
      undoable =
          fill_buckets-IsUndoable c g n v.sized n 0 s.store start state 0 (omega arith) (record {
            table = v.table;
            entries = tt;
            undoes = λ q below. (unfold roll_back in refl);
          })

      ended :
          (r : Journaled c × Result (State × ℕ))
          → IsUndoable c n s.store r.0
          → (end_fill c g s r).1 ≡ throw error
          → IsUntouched s (end_fill c g s r).0
      ended (j, throw error') u h = record {
        table = roll_back-IsTable c n v.sized j.journal j.store u.entries u.table;
        reads = u.undoes;
        same_layout = refl;
        same_filled = refl;
        same_padded = refl;
        same_statistics = refl;
      }
      ended (j, ok done) u h = absurd cc

      padded_or :
          (b : Bool)
          → (if b
              then (s, throw logic_error)
              else end_fill c g s (fill_buckets c g n 0 start state 0)).1
            ≡ throw error
          → IsUntouched s
              (if b
                then (s, throw logic_error)
                else end_fill c g s (fill_buckets c g n 0 start state 0)).0
      padded_or true h = record {
        table = v.table;
        reads = λ q below. refl;
        same_layout = refl;
        same_filled = refl;
        same_padded = refl;
        same_statistics = refl;
      }
      padded_or false h = ended _ undoable h
