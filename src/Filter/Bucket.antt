-- ===== src/Filter/Bucket.antt =====
-- One bucket of the paired filter, an array of `Record`s in slot order, and the sort that
-- `WriteBucket` applies to it.
pub mod Laws
use vlse.Base.{
  ℕ, zero, suc, ◌+◌, List, [], ◌∷◌, Bool, not, ◌==◌, ltb, if◌then◌else◌, to_nat, set, Result, ok,
  throw, logic_error, ◌>>=◌,
}

pub record Record (Payload : Type 0) : Type 0 where
  pub fingerprint : ℕ
  pub payload : Payload

abbrev pub Bucket : Type 0 → Type 0
Bucket Payload = List (Record Payload)

abbrev pub slots_per_bucket : ℕ
slots_per_bucket = 4

module _ {Payload : Type 0} where
  -- A zero fingerprint marks an empty slot.
  abbrev pub is_occupied : Record Payload → Bool
  is_occupied entry = not (entry.fingerprint == 0)

  unfoldable pub occupied : Bucket Payload → ℕ
  occupied [] = 0
  occupied (entry ∷ bucket) = to_nat (is_occupied entry) + occupied bucket

  unfoldable pub first_empty_from : ℕ → Bucket Payload → Result ℕ
  first_empty_from i [] = throw logic_error
  first_empty_from i (entry ∷ bucket) =
      if entry.fingerprint == 0 then ok i else first_empty_from (i + 1) bucket

  unfoldable pub first_empty : Bucket Payload → Result ℕ
  unfolding first_empty_from
  first_empty bucket = first_empty_from 0 bucket

  -- `bucket[FirstEmpty(bucket)] = incoming`.
  unfoldable pub place : Record Payload → Bucket Payload → Result (Bucket Payload)
  place incoming bucket = do i ← first_empty bucket; ok (set bucket i incoming)

  -- `entry` goes in front of the first record whose fingerprint is not greater.
  unfoldable pub insert_sorted : Record Payload → Bucket Payload → Bucket Payload
  insert_sorted entry [] = entry ∷ []
  insert_sorted entry (other ∷ bucket) =
      if ltb entry.fingerprint other.fingerprint
      then other ∷ insert_sorted entry bucket
      else entry ∷ other ∷ bucket

  -- `std::stable_sort` by descending fingerprint.
  unfoldable pub stable_sort : Bucket Payload → Bucket Payload
  unfolding insert_sorted
  stable_sort [] = []
  stable_sort (entry ∷ bucket) = insert_sorted entry (stable_sort bucket)
