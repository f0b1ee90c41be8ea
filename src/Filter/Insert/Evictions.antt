-- ===== src/Filter/Insert/Evictions.antt =====
-- Eviction chains: each step keeps the books and can be undone.
use vlse.Base.{
  ℕ, zero, suc, ◌+◌, ◌^◌, ◌<◌, ◌≡◌, ◌≢◌, refl, sym, ap, ◌∙◌, arith, Bool, true, false, to_nat, List,
  [], ◌∷◌, get_or, set, length-set, range, Option, none, some, Option-cases, subst, Returns, u64,
  Bool-cases, inl, inr, ◌==◌, ltb, ltb→lt, ==→ne, ne→==,
}
use vlse.Filter.Bucket.{Record, Bucket, slots_per_bucket, occupied}
use vlse.Filter.Bucket.Laws.{
  count, count-set, AllBelow-set, AllBelow-get_or, IsPlaced, place-IsPlaced, occupied-le-length,
}
use vlse.Filter.Insert.{Chain, vacant, finish, give_up, shortcut, evict_slot, evict_random, evict}
use vlse.Filter.State.Alternate.{IsLayout, alternate-lt}
use vlse.Filter.State.Journal.{
  IsBucket, IsTable, SameReads, IsUndoable, read-IsBucket, read-write, journal_write-IsUndoable,
  roll_back-IsTable,
}
use vlse.Filter.State.{Setting, Filter, Journaled, alternate, read, write, journal_write}
use vlse.Filter.Store.Fields.{IsSized}
use vlse.Filter.Store.{Store}
use vlse.Filter.Total.{IsMovable, total, total-write}

module _ (c : Setting) (s : Filter c) (laid : IsLayout s.layout)
    (sized : IsSized c.fingerprint_bits s.layout.bucket_count) where
  open c use {Payload, Engine, fingerprint_bits}

  abbrev n : ℕ
  n = s.layout.bucket_count

  module _ (home : ℕ) (incoming : Record Payload) where
    -- The table holds what it held at the start of the insertion, and the incoming record.
    abbrev pub IsGrown : Store Payload → Type 0
    IsGrown store =
        (sees : ℕ → Record Payload → Bool)
        → IsMovable c s.layout sees
        → total c n sees store ≡ total c n sees s.store + to_nat (sees home incoming)

    -- The table and the carried record together hold that.
    pub record IsChain (st : Chain c) : Type 0 where
      pub undoable : IsUndoable c n s.store st.journaled
      pub inside : st.current_bucket < n
      pub small : st.carried.fingerprint < 2 ^ fingerprint_bits
      pub balance :
          (sees : ℕ → Record Payload → Bool)
          → IsMovable c s.layout sees
          → total c n sees st.journaled.store + to_nat (sees st.current_bucket st.carried)
            ≡ total c n sees s.store + to_nat (sees home incoming)

    pub record IsDone (j : Journaled c) : Type 0 where
      pub undoable : IsUndoable c n s.store j
      pub grown : IsGrown j.store

    module _ (st : Chain c) (ch : IsChain st) where
      abbrev here : Bucket Payload
      here = read c st.journaled.store st.current_bucket

      here-IsBucket : IsBucket c n here
      here-IsBucket = read-IsBucket c n sized st.journaled.store st.current_bucket ch.undoable.table

      set-IsBucket : (slot : ℕ) → IsBucket c n (set here slot st.carried)
      set-IsBucket slot = record {
        full = length-set here slot st.carried ∙ here-IsBucket.full;
        small =
            AllBelow-set (2 ^ fingerprint_bits) here slot st.carried ch.small here-IsBucket.small;
      }

      taken-small : (slot : ℕ) → (get_or here slot (vacant c)).fingerprint < 2 ^ fingerprint_bits
      taken-small slot =
          AllBelow-get_or (2 ^ fingerprint_bits) here slot (vacant c) (omega (arith, ch.small))
            here-IsBucket.small

      -- After the swap the record that was taken out is the pending one.
      swap_balance :
          (slot : ℕ)
          → slot < slots_per_bucket
          → (sees : ℕ → Record Payload → Bool) → IsMovable c s.layout sees
          → total c n sees (write c st.journaled.store st.current_bucket (set here slot st.carried))
              + to_nat (sees st.current_bucket (get_or here slot (vacant c)))
            ≡ total c n sees s.store + to_nat (sees home incoming)
      swap_balance slot below sees movable = omega (
        arith,
        total-write c n sized sees st.journaled.store st.current_bucket (set here slot st.carried)
            ch.undoable.table ch.inside (set-IsBucket slot),
        count-set (sees st.current_bucket) here slot st.carried (vacant c)
            (omega (arith, here-IsBucket.full)),
        ch.balance sees movable,
      )

      evict_slot-IsChain :
          (engine : Engine) (slot : ℕ)
          → slot < slots_per_bucket
          → IsChain (evict_slot c s engine here slot st)
      unfolding evict_slot journal_write
      evict_slot-IsChain engine slot below =
          let taken = get_or here slot (vacant c) in
          record {
            undoable =
                journal_write-IsUndoable c n sized s.store st.journaled st.current_bucket _
                  ch.undoable ch.inside (set-IsBucket slot);
            inside = alternate-lt s.layout st.current_bucket taken.fingerprint laid ch.inside;
            small = taken-small slot;
            balance = λ sees movable.
                rw (movable.moves st.current_bucket taken) (swap_balance slot below sees movable);
          }

      -- The carried record placed in its bucket ends the chain.
      placed-IsDone :
          (filled : Bucket Payload)
          → IsPlaced st.carried here filled
          → IsDone (journal_write c st.current_bucket filled st.journaled)
      unfolding journal_write
      placed-IsDone filled placed =
          let good : IsBucket c n filled = record {
            full = placed.same_length ∙ here-IsBucket.full;
            small = placed.below _ ch.small here-IsBucket.small;
          } in
          record {
            undoable =
                journal_write-IsUndoable c n sized s.store st.journaled st.current_bucket filled
                  ch.undoable ch.inside good;
            grown = λ sees movable. omega (
              arith,
              total-write c n sized sees st.journaled.store st.current_bucket filled
                  ch.undoable.table ch.inside good,
              placed.counts (sees st.current_bucket) (movable.rejects st.current_bucket),
              ch.balance sees movable,
            );
          }

      -- One record of the full bucket moves to its other bucket, the carried one takes its slot.
      moved-IsDone :
          (slot next_bucket : ℕ) (filled : Bucket Payload)
          → slot < slots_per_bucket
          → next_bucket ≢ st.current_bucket
          → next_bucket
            ≡ alternate s.layout st.current_bucket (get_or here slot (vacant c)).fingerprint
          → IsPlaced (get_or here slot (vacant c)) (read c st.journaled.store next_bucket) filled
          → IsDone (
              journal_write c next_bucket filled
                (journal_write c st.current_bucket (set here slot st.carried) st.journaled))
      unfolding journal_write
      moved-IsDone slot next filled below ne e placed =
          let moved = get_or here slot (vacant c) in
          let first = write c st.journaled.store st.current_bucket (set here slot st.carried) in
          let within : next < n =
            rw e (alternate-lt s.layout st.current_bucket moved.fingerprint laid ch.inside) in
          let old = read-IsBucket c n sized st.journaled.store next ch.undoable.table in
          let good : IsBucket c n filled = record {
            full = placed.same_length ∙ old.full;
            small = placed.below _ (taken-small slot) old.small;
          } in
          let undo =
            journal_write-IsUndoable c n sized s.store st.journaled st.current_bucket _ ch.undoable
              ch.inside (set-IsBucket slot) in
          let unread : read c first next ≡ read c st.journaled.store next = rw (
            read-write c n sized st.journaled.store st.current_bucket next _ ch.undoable.table
                ch.inside within (set-IsBucket slot),
            ne→== st.current_bucket next (λ h. ne (sym h)),
          ) in
          record {
            undoable = journal_write-IsUndoable c n sized s.store _ next filled undo within good;
            grown = λ sees movable.
                let arrives : sees next moved ≡ sees st.current_bucket moved =
                  rw e (movable.moves st.current_bucket moved) in
                omega (
                  arith,
                  total-write c n sized sees first next filled undo.table within good,
                  placed.counts (sees next) (movable.rejects next),
                  ap (λ (b : Bucket Payload). count (sees next) b) unread,
                  ap to_nat arrives,
                  swap_balance slot below sees movable,
                );
          }

      abbrev IsShort : Option (Journaled c) → Type 0
      IsShort none = Unit {0}
      IsShort (some done) = IsDone done

      -- The slots that the inner loop visits are slots of a bucket.
      abbrev AllSlots : List ℕ → Type 0
      AllSlots [] = Unit {0}
      AllSlots (slot ∷ slots) = (slot < slots_per_bucket) × AllSlots slots

      shortcut-IsShort :
          (slots : List ℕ) → AllSlots slots → Returns (shortcut c s st here slots) IsShort
      unfolding shortcut
      shortcut-IsShort [] fits = (none, refl, tt)
      shortcut-IsShort (slot ∷ slots) fits =
          let moved = get_or here slot (vacant c) in
          let next : ℕ = alternate s.layout st.current_bucket moved.fingerprint in
          let bucket = read c st.journaled.store next in
          elim (Bool-cases (next == st.current_bucket)) [
            | inl same ↦ rw same (shortcut-IsShort slots fits.1)
            | inr ne ↦ elim (Bool-cases (occupied bucket == slots_per_bucket)) [
              | inl full ↦ rw (ne, full) (shortcut-IsShort slots fits.1)
              | inr open_slot ↦
                  let old = read-IsBucket c n sized st.journaled.store next ch.undoable.table in
                  let (filled, run, placed) =
                    place-IsPlaced moved bucket
                      (omega (arith, occupied-le-length bucket, old.full, ==→ne _ _ open_slot)) in
                  rw (ne, open_slot, run)
                    (some _, refl, moved-IsDone slot next filled fits.0 (==→ne _ _ ne) refl placed)
            ]
          ]

    -- What an insertion leaves: with `true` the record was added, with `false` nothing changed.
    pub record IsInserted (r : Bool × Filter c) : Type 0 where
      pub table : IsTable c n r.1.store
      pub grown : r.0 ≡ true → IsGrown r.1.store
      pub filled : r.0 ≡ true → r.1.filled_slots ≡ u64 (s.filled_slots + 1)
      pub restored : r.0 ≡ false → SameReads c n r.1.store s.store
      pub unfilled : r.0 ≡ false → r.1.filled_slots ≡ s.filled_slots
      pub same_layout : r.1.layout ≡ s.layout
      pub same_seed : r.1.hash_seed ≡ s.hash_seed
      pub same_padding : r.1.padded ≡ s.padded

    finish-IsInserted :
        (steps : ℕ) (engine : Engine) (done : Journaled c)
        → IsDone done
        → IsInserted (true, finish c s steps engine done.store)
    unfolding finish
    finish-IsInserted steps engine done d = record {
      table = d.undoable.table;
      grown = λ _. d.grown;
      filled = λ _. refl;
      restored = λ e. cc;
      unfilled = λ e. cc;
      same_layout = refl;
      same_seed = refl;
      same_padding = refl;
    }

    give_up-IsInserted :
        (steps : ℕ) (st : Chain c) → IsChain st → IsInserted (false, give_up c s steps st)
    unfolding give_up
    give_up-IsInserted steps st ch = record {
      table =
          roll_back-IsTable c n sized st.journaled.journal st.journaled.store ch.undoable.entries
            ch.undoable.table;
      grown = λ e. cc;
      filled = λ e. cc;
      restored = λ _. ch.undoable.undoes;
      unfilled = λ _. refl;
      same_layout = refl;
      same_seed = refl;
      same_padding = refl;
    }

    pub evict_random-IsChain :
        (st : Chain c)
        → IsChain st
        → IsChain (evict_random c s (read c st.journaled.store st.current_bucket) st)
    unfolding evict_random
    evict_random-IsChain st ch = evict_slot-IsChain st ch _ _ (omega arith)

    -- The eviction loop ends in a slot, or undoes its writes.
    pub evict-IsInserted :
        (left steps : ℕ) (st : Chain c) → IsChain st → Returns (evict c s left steps st) IsInserted
    unfolding evict
    evict-IsInserted zero steps st ch = (_, refl, give_up-IsInserted steps st ch)
    evict-IsInserted (suc left) steps st ch =
        let bucket = read c st.journaled.store st.current_bucket in
        elim (Bool-cases (ltb (occupied bucket) slots_per_bucket)) [
          | inl room ↦
              let (filled, run, placed) =
                place-IsPlaced st.carried bucket
                  (rw (here-IsBucket st ch).full (ltb→lt _ _ room)) in
              rw (room, run)
                (
                  _,
                  refl,
                  finish-IsInserted (steps + 1) st.engine _ (placed-IsDone st ch filled placed),
                )
          | inr full ↦
              let (o, run, good) = shortcut-IsShort st ch (range slots_per_bucket) (omega arith) in
              elim (Option-cases o) [
                | inl none_moved ↦
                    rw (full, run, none_moved)
                      (evict-IsInserted left (steps + 1) _ (evict_random-IsChain st ch))
                | inr (done, e) ↦
                    rw (full, run, e)
                      (
                        _,
                        refl,
                        finish-IsInserted (steps + 1) st.engine done (subst (IsShort st ch) e good),
                      )
              ]
        ]
