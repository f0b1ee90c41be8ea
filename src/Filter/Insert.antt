-- ===== src/Filter/Insert.antt =====
-- `PairedVacuumFilter::Insert` of paired_vlse/include/paired_vacuum_filter.h. Memory does not run out:
-- `journal.reserve` and the growth of the journal throw nothing here.
pub mod Evictions
pub mod Laws
use vlse.Base.{
  ℕ, zero, suc, ◌+◌, ◌%◌, max, bit_and, Bool, true, false, ◌||◌, ◌==◌, ltb, leb, if◌then◌else◌,
  List, [], ◌∷◌, get_or, set, range, Option, none, some, Result, ok, throw, logic_error, ◌>>=◌, u64,
}
use vlse.Filter.Bucket.{Record, Bucket, slots_per_bucket, occupied, place}
use vlse.Filter.State.{
  Setting, Statistics, KeyMetadata, Filter, Journaled, alternate, metadata, read, write,
  journal_write, roll_back, capacity,
}
use vlse.Filter.Store.{Store}

-- The counters after an insertion that ends its chain after `steps` steps.
unfoldable pub count_success : ℕ → Statistics → Statistics
count_success steps t = record t {
  successful_inserts = u64 (t.successful_inserts + 1);
  eviction_steps = u64 (t.eviction_steps + steps);
  maximum_eviction_chain = max t.maximum_eviction_chain steps;
}

unfoldable pub count_rollback : ℕ → Statistics → Statistics
count_rollback steps t = record t {
  failed_inserts = u64 (t.failed_inserts + 1);
  rollback_count = u64 (t.rollback_count + 1);
  eviction_steps = u64 (t.eviction_steps + steps);
  maximum_eviction_chain = max t.maximum_eviction_chain steps;
}

module _ (c : Setting) where
  open c use {Payload, Engine, empty_payload}

  -- The variables of the eviction loop, without the counter `chain_length`.
  pub record Chain : Type 0 where
    pub journaled : Journaled c
    pub engine : Engine
    pub carried : Record Payload
    pub current_bucket : ℕ

  abbrev pub vacant : Record Payload
  vacant = record { fingerprint = 0; payload = empty_payload }

module _ (c : Setting) (s : Filter c) where
  open c use {Payload, Engine, draw}

  -- The filter after a chain that found a slot.
  unfoldable pub finish : ℕ → Engine → Store Payload → Filter c
  finish steps engine store = record s {
    random_engine = engine;
    store = store;
    filled_slots = u64 (s.filled_slots + 1);
    statistics = count_success steps s.statistics;
  }

  -- The filter after a chain that ran out of evictions.
  unfoldable pub give_up : ℕ → Chain c → Filter c
  give_up steps st = record s {
    random_engine = st.engine;
    store = roll_back c st.journaled.journal st.journaled.store;
    statistics = count_rollback steps s.statistics;
  }

  -- The loop over the slots of a full bucket: move one record to its other bucket, if that has an
  -- empty slot. `none` means that the loop ended with `shortcut_succeeded` false.
  unfoldable pub shortcut : Chain c → Bucket Payload → List ℕ → Result (Option (Journaled c))
  shortcut st bucket [] = ok none
  shortcut st bucket (slot ∷ slots) =
      let moved = get_or bucket slot (vacant c) in
      let next_bucket = alternate s.layout st.current_bucket moved.fingerprint in
      let next = read c st.journaled.store next_bucket in
      let rest = shortcut st bucket slots in
      if next_bucket == st.current_bucket
      then rest
      else if occupied next == slots_per_bucket
      then rest
      else do
        filled ← place moved next
        ok (
            some (
              journal_write c next_bucket filled
                (journal_write c st.current_bucket (set bucket slot st.carried) st.journaled)))

  -- `std::swap(carried, bucket[slot])`, the write of the bucket, and the step to the other bucket
  -- of the record that was taken out.
  unfoldable pub evict_slot : Engine → Bucket Payload → ℕ → Chain c → Chain c
  evict_slot engine bucket slot st =
      let taken = get_or bucket slot (vacant c) in
      record {
        journaled = journal_write c st.current_bucket (set bucket slot st.carried) st.journaled;
        engine = engine;
        carried = taken;
        current_bucket = alternate s.layout st.current_bucket taken.fingerprint;
      }

  -- One eviction: `random_engine_() % kSlotsPerBucket` chooses the slot.
  unfoldable pub evict_random : Bucket Payload → Chain c → Chain c
  evict_random bucket st =
      let (number, engine) = draw st.engine in
      evict_slot engine bucket (number % slots_per_bucket) st

  -- The eviction loop with `left` rounds left.
  unfoldable pub evict : ℕ → ℕ → Chain c → Result (Bool × Filter c)
  evict zero chain_length st = ok (false, give_up chain_length st)
  evict (suc left) chain_length st =
      let bucket = read c st.journaled.store st.current_bucket in
      let onward = evict left (chain_length + 1) (evict_random bucket st) in
      if ltb (occupied bucket) slots_per_bucket
      then (do
        filled ← place st.carried bucket
        let done : Journaled c = journal_write c st.current_bucket filled st.journaled
        ok (true, finish (chain_length + 1) st.engine done.store))
      else do
        short ← shortcut st bucket (range slots_per_bucket)
        elim short [
          | some done ↦ ok (true, finish (chain_length + 1) st.engine done.store)
          | none ↦ onward
        ]

  -- Both candidate buckets are full: start a chain at one of them.
  unfoldable pub start_chain : KeyMetadata → Record Payload → Chain c
  start_chain m incoming =
      let (side, engine) = draw s.random_engine in
      let current_bucket = if bit_and side 1 == 0 then m.second_bucket else m.first_bucket in
      evict_random (read c s.store current_bucket) (record {
        journaled = record { store = s.store; journal = [] };
        engine = engine;
        carried = incoming;
        current_bucket = current_bucket;
      })

  -- A candidate bucket has an empty slot: take the emptier one.
  unfoldable pub insert_direct :
      KeyMetadata → Record Payload → Bucket Payload → Bucket Payload → Result (Bool × Filter c)
  insert_direct m incoming first second =
      let use_first = m.first_bucket == m.second_bucket || leb (occupied first) (occupied second) in
      let destination = if use_first then m.first_bucket else m.second_bucket in
      do
        filled ← place incoming (if use_first then first else second)
        ok (
          true,
          record s {
            store = write c s.store destination filled;
            filled_slots = u64 (s.filled_slots + 1);
            statistics = record s.statistics {
              successful_inserts = u64 (s.statistics.successful_inserts + 1);
            };
          },
        )

  unfoldable pub insert_at : KeyMetadata → Payload → Result (Bool × Filter c)
  insert_at m payload =
      let first = read c s.store m.first_bucket in
      let second =
        if m.second_bucket == m.first_bucket then first else read c s.store m.second_bucket in
      let incoming : Record Payload = record { fingerprint = m.fingerprint; payload = payload } in
      if ltb (occupied first) slots_per_bucket || ltb (occupied second) slots_per_bucket
      then insert_direct m incoming first second
      else evict s.maximum_evictions 0 (start_chain m incoming)

  -- `Insert` behind its first guard: a full table counts a failure.
  unfoldable pub insert_unpadded : ℕ → Payload → Result (Bool × Filter c)
  insert_unpadded token payload =
      if leb (capacity c s) s.filled_slots
      then ok (
        false,
        record s {
          statistics = record s.statistics {
            failed_inserts = u64 (s.statistics.failed_inserts + 1);
          };
        },
      )
      else do m ← metadata c s token; insert_at m payload

  unfoldable pub insert : ℕ → Payload → Result (Bool × Filter c)
  insert token payload = if s.padded then throw logic_error else insert_unpadded token payload
