-- ===== src/Filter/Fill.antt =====
-- `FillEmptySlots` of paired_vlse/include/paired_vacuum_filter.h. The generators and the predicate
-- that the caller passes are a record of operations on a state of theirs; they may throw, and
-- `rejections` bounds the fingerprints drawn for one slot. Memory does not run out:
-- `journal.reserve` throws nothing here.
pub mod Records
pub mod Laws
pub mod Rounds
pub mod Completed
pub mod Willing
pub mod Retrieval
use vlse.Base.{
  ℕ, zero, suc, ◌+◌, bit_and, Bool, true, false, not, ◌||◌, ◌==◌, if◌then◌else◌, List, [], ◌∷◌,
  Result, ok, throw, logic_error, out_of_fuel, ◌>>=◌, u64,
}
use vlse.Filter.Bucket.{Record, Bucket, is_occupied}
use vlse.Filter.State.{Setting, Filter, Journaled, fingerprint_mask, read, journal_write, roll_back}

pub record Generators (Payload : Type 0) : Type 1 where
  pub State : Type 0
  pub fingerprint : State → Result (ℕ × State)
  pub payload : State → Result (Payload × State)
  pub allowed : ℕ → Bool
  pub rejections : ℕ

module _ (c : Setting) (g : Generators c.Payload) where
  open c use {Payload}
  open g use {State}

  -- The `do` loop.
  unfoldable pub draw_fingerprint : ℕ → State → Result (ℕ × State)
  draw_fingerprint zero state = throw out_of_fuel
  draw_fingerprint (suc fuel) state = do
    drawn ← g.fingerprint state
    let candidate = bit_and drawn.0 (fingerprint_mask c)
    let again = draw_fingerprint fuel drawn.1
    if candidate == 0 || not (g.allowed candidate) then again else ok (candidate, drawn.1)

  unfoldable pub fill_record : Record Payload → State → Result (Record Payload × State)
  fill_record entry state = if is_occupied entry then ok (entry, state) else do
    candidate ← draw_fingerprint g.rejections state
    payload ← g.payload candidate.1
    ok (record { fingerprint = candidate.0; payload = payload.0 }, payload.1)

  -- The variables after the loop over the records of a bucket.
  pub record Filling : Type 0 where
    pub bucket : Bucket Payload
    pub state : State
    pub generated : ℕ

  -- `generated` counts from 0 here, so `changed` is that it is not 0.
  unfoldable pub fill_bucket : Bucket Payload → State → Result Filling
  fill_bucket [] state = ok (record { bucket = []; state = state; generated = 0 })
  fill_bucket (entry ∷ bucket) state = do
    filled ← fill_record entry state
    rest ← fill_bucket bucket filled.1
    ok (record {
      bucket = filled.0 ∷ rest.bucket;
      state = rest.state;
      generated = (if is_occupied entry then 0 else 1) + rest.generated;
    })

  -- The rest of a round of the loop over the buckets, and the rounds after it. The storage and its
  -- journal stand beside the outcome, since the handler needs them when a generator throws.
  unfoldable pub fill_next :
      (Journaled c → State → ℕ → Journaled c × Result (State × ℕ))
      → ℕ
      → Journaled c
      → ℕ
      → Result Filling
      → Journaled c × Result (State × ℕ)
  fill_next rounds bucket_index j generated (throw error) = (j, throw error)
  fill_next rounds bucket_index j generated (ok filling) =
      rounds (if filling.generated == 0 then j else journal_write c bucket_index filling.bucket j)
        filling.state (u64 (generated + filling.generated))

  -- The loop over the buckets from an index on, with so many to go.
  unfoldable pub fill_buckets : ℕ → ℕ → Journaled c → State → ℕ → Journaled c × Result (State × ℕ)
  fill_buckets zero bucket_index j state generated = (j, ok (state, generated))
  fill_buckets (suc remaining) bucket_index j state generated =
      fill_next (fill_buckets remaining (suc bucket_index)) bucket_index j generated
        (fill_bucket (read c j.store bucket_index) state)

  unfoldable pub end_fill :
      Filter c → Journaled c × Result (State × ℕ) → Filter c × Result (ℕ × State)
  end_fill s (j, throw error) = (record s { store = roll_back c j.journal j.store }, throw error)
  end_fill s (j, ok (state, generated)) = (
    record s { store = j.store; filled_slots = u64 (s.filled_slots + generated); padded = true },
    ok (generated, state),
  )

  unfoldable pub fill_empty_slots : Filter c → State → Filter c × Result (ℕ × State)
  fill_empty_slots s state =
      if s.padded
      then (s, throw logic_error)
      else end_fill s
          (fill_buckets s.layout.bucket_count 0 (record { store = s.store; journal = [] }) state 0)
