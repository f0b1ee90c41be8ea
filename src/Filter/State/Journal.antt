-- ===== src/Filter/State/Journal.antt =====
-- Tables of sorted buckets, writes through the journal, and the rollback that undoes them.
use vlse.Base.{
  ℕ, Bool, true, false, ◌^◌, ◌<◌, ◌≡◌, ap, ◌∙◌, List, [], ◌∷◌, length, ℕ_discrete, ◌==◌,
  if◌then◌else◌, eq→==, ne→==,
}
use vlse.Filter.Bucket.{Bucket, stable_sort, slots_per_bucket}
use vlse.Filter.Bucket.Laws.{AllBelow, IsSorted, stable_sort-IsSorted, IsSorted-stable_sort}
use vlse.Filter.State.{Setting, Snapshot, Journaled, read, write, journal_write, roll_back}
use vlse.Filter.Store.{Store}
use vlse.Filter.Store.Fields.{IsSized}
use vlse.Filter.Store.Laws.{
  IsStore, write_bucket-IsStore, read_bucket-write_bucket_self, read_bucket-write_bucket_ne,
  length-read_bucket, AllBelow-read_bucket,
}

module _ (c : Setting) (n : ℕ) where
  open c use {Payload, fingerprint_bits}

  -- A bucket that may be written: four slots, fingerprints of the right width.
  pub record IsBucket (b : Bucket Payload) : Type 0 where
    pub full : length b ≡ slots_per_bucket
    pub small : AllBelow (2 ^ fingerprint_bits) b

  -- A table of `n` buckets, each sorted.
  pub record IsTable (s : Store Payload) : Type 0 where
    pub valid : IsStore fingerprint_bits n s
    pub sorted : (q : ℕ) → q < n → IsSorted (read c s q)

  -- The tables read alike in every bucket.
  abbrev pub SameReads : Store Payload → Store Payload → Type 0
  SameReads s t = (q : ℕ) → q < n → read c s q ≡ read c t q

  abbrev pub IsJournal : List (Snapshot c) → Type 0
  IsJournal [] = Unit {0}
  IsJournal (snapshot ∷ journal) =
      (snapshot.bucket_index < n) × IsBucket snapshot.bucket × IsJournal journal

  -- A table with a journal that leads back to `origin`.
  pub record IsUndoable (origin : Store Payload) (j : Journaled c) : Type 0 where
    pub table : IsTable j.store
    pub entries : IsJournal j.journal
    pub undoes : SameReads (roll_back c j.journal j.store) origin

module _ (c : Setting) (n : ℕ) (sized : IsSized c.fingerprint_bits n) where
  open c use {Payload, fingerprint_bits, empty_payload}

  pub read-IsBucket : (s : Store Payload) (q : ℕ) → IsTable c n s → IsBucket c n (read c s q)
  read-IsBucket s q t = record {
    full = length-read_bucket fingerprint_bits empty_payload s q;
    small = AllBelow-read_bucket fingerprint_bits n sized empty_payload s t.valid q;
  }

  -- Reading any bucket after a write.
  pub read-write :
      (s : Store Payload) (p q : ℕ) (b : Bucket Payload)
      → IsTable c n s
      → p < n
      → q < n
      → IsBucket c n b
      → read c (write c s p b) q ≡ (if p == q then stable_sort b else read c s q)
  read-write s p q b t hp hq v = elim (ℕ_discrete p q) [
    | yes same ↦
        rw (eq→== p q same, ← same)
          (read_bucket-write_bucket_self fingerprint_bits n sized empty_payload s t.valid p hp b
            v.full v.small)
    | no ne ↦ rw (ne→== p q ne) (
        read_bucket-write_bucket_ne fingerprint_bits n sized empty_payload s t.valid p hp b v.full
          v.small q hq ne)
  ]

  pub write-IsTable :
      (s : Store Payload) (p : ℕ) (b : Bucket Payload)
      → IsTable c n s
      → p < n
      → IsBucket c n b
      → IsTable c n (write c s p b)
  write-IsTable s p b t hp v = record {
    valid =
        write_bucket-IsStore fingerprint_bits n sized empty_payload s t.valid p hp b v.full v.small;
    sorted = λ q hq. rw (read-write s p q b t hp hq v) (branch (p == q) q hq);
  }
    where
      branch : (test : Bool) (q : ℕ) → q < n → IsSorted (if test then stable_sort b else read c s q)
      branch true q hq = IsSorted-stable_sort b
      branch false q hq = t.sorted q hq

  -- Writes of one bucket into tables that read alike leave tables that read alike.
  pub write-SameReads :
      (s t : Store Payload) (p : ℕ) (b : Bucket Payload)
      → IsTable c n s
      → IsTable c n t
      → p < n
      → IsBucket c n b
      → SameReads c n s t
      → SameReads c n (write c s p b) (write c t p b)
  write-SameReads s t p b vs vt hp v same q hq =
      rw (read-write s p q b vs hp hq v, read-write t p q b vt hp hq v, same q hq)

  -- Writing back what was read undoes a write.
  pub write-back :
      (s : Store Payload) (p : ℕ) (b : Bucket Payload)
      → IsTable c n s
      → p < n
      → IsBucket c n b
      → SameReads c n (write c (write c s p b) p (read c s p)) s
  write-back s p b t hp v q hq =
      rw
        (
          read-write (write c s p b) p q (read c s p) (write-IsTable s p b t hp v) hp hq
              (read-IsBucket s p t),
          read-write s p q b t hp hq v,
          stable_sort-IsSorted (read c s p) (t.sorted p hp),
        )
        (elim (ℕ_discrete p q) [
          | yes same ↦ rw (eq→== p q same) (ap (read c s) same)
          | no ne ↦ rw (ne→== p q ne)
        ])

  pub roll_back-IsTable :
      (j : List (Snapshot c)) (s : Store Payload)
      → IsJournal c n j
      → IsTable c n s
      → IsTable c n (roll_back c j s)
  unfolding roll_back
  roll_back-IsTable [] s v t = t
  roll_back-IsTable (snapshot ∷ j) s v t =
      roll_back-IsTable j _ v.2 (write-IsTable s snapshot.bucket_index snapshot.bucket t v.0 v.1)

  pub roll_back-SameReads :
      (j : List (Snapshot c)) (s t : Store Payload)
      → IsJournal c n j
      → IsTable c n s
      → IsTable c n t
      → SameReads c n s t
      → SameReads c n (roll_back c j s) (roll_back c j t)
  unfolding roll_back
  roll_back-SameReads [] s t v vs vt same = same
  roll_back-SameReads (snapshot ∷ j) s t v vs vt same =
      roll_back-SameReads j _ _ v.2
        (write-IsTable s snapshot.bucket_index snapshot.bucket vs v.0 v.1)
        (write-IsTable t snapshot.bucket_index snapshot.bucket vt v.0 v.1)
        (write-SameReads s t snapshot.bucket_index snapshot.bucket vs vt v.0 v.1 same)

  pub journal_write-IsUndoable :
      (origin : Store Payload) (j : Journaled c) (p : ℕ) (b : Bucket Payload)
      → IsUndoable c n origin j
      → p < n
      → IsBucket c n b
      → IsUndoable c n origin (journal_write c p b j)
  unfolding journal_write roll_back
  journal_write-IsUndoable origin j p b u hp v = record {
    table = write-IsTable j.store p b u.table hp v;
    entries = (hp, read-IsBucket j.store p u.table, u.entries);
    undoes = λ q hq.
        roll_back-SameReads j.journal _ j.store u.entries
          (write-IsTable _ p (read c j.store p) (write-IsTable j.store p b u.table hp v) hp
            (read-IsBucket j.store p u.table))
          u.table (write-back j.store p b u.table hp v) q hq
        ∙ u.undoes q hq;
  }
