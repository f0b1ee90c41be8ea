-- ===== src/Filter/Total.antt =====
-- Sums over all buckets: what one write changes, for any test of a record at a bucket.
use vlse.Base.{ℕ, zero, suc, ◌+◌, ◌<◌, ◌≡◌, ◌≢◌, refl, arith, Bool, false, ℕ_discrete, ne→==, eq→==}
use vlse.Filter.Bucket.{Record, Bucket}
use vlse.Filter.Bucket.Laws.{count, count-stable_sort}
use vlse.Filter.State.Journal.{IsTable, IsBucket, read-write, SameReads}
use vlse.Filter.State.{Setting, Layout, read, write, alternate}
use vlse.Filter.Store.Fields.{IsSized}
use vlse.Filter.Store.{Store}

-- g 0 + ... + g (n - 1).
unfoldable pub sum_below : ℕ → (ℕ → ℕ) → ℕ
sum_below zero g = 0
sum_below (suc n) g = sum_below n g + g n

pub sum_below_ext :
    (n : ℕ) (g h : ℕ → ℕ) → ((i : ℕ) → i < n → g i ≡ h i) → sum_below n g ≡ sum_below n h
unfolding sum_below
sum_below_ext zero g h e = refl
sum_below_ext (suc n) g h e =
    omega (arith, sum_below_ext n g h (λ i l. e i (omega arith)), e n (omega arith))

pub sum_below_update :
    (n : ℕ) (g h : ℕ → ℕ) (p : ℕ)
    → p < n
    → ((i : ℕ) → i < n → p ≢ i → g i ≡ h i)
    → sum_below n g + h p ≡ sum_below n h + g p
unfolding sum_below
sum_below_update zero g h p l e = absurd (omega arith)
sum_below_update (suc n) g h p l e = elim (ℕ_discrete p n) [
  | yes last ↦
      rw last (omega (arith, sum_below_ext n g h (λ i below. e i (omega arith) (omega arith))))
  | no ne ↦ omega (
    arith,
    sum_below_update n g h p (omega arith) (λ i below apart. e i (omega arith) apart),
    e n (omega arith) ne,
  )
]

module _ (c : Setting) where
  open c use {Payload}

  -- A test of a record at a bucket that no empty slot passes, and that a record passes at its
  -- alternate bucket exactly when it passes where it stands.
  pub record IsMovable (layout : Layout) (sees : ℕ → Record Payload → Bool) : Type 0 where
    pub rejects : (p : ℕ) (r : Record Payload) → r.fingerprint ≡ 0 → sees p r ≡ false
    pub moves : (p : ℕ) (r : Record Payload) → sees (alternate layout p r.fingerprint) r ≡ sees p r

  -- The records of the table that pass the test where they stand.
  unfoldable pub total : ℕ → (ℕ → Record Payload → Bool) → Store Payload → ℕ
  total n sees s = sum_below n (λ q. count (sees q) (read c s q))

module _ (c : Setting) (n : ℕ) (sized : IsSized c.fingerprint_bits n) where
  open c use {Payload}

  pub total-SameReads :
      (sees : ℕ → Record Payload → Bool) (s t : Store Payload)
      → SameReads c n s t
      → total c n sees s ≡ total c n sees t
  unfolding total
  total-SameReads sees s t same = sum_below_ext n _ _ (λ q below. rw (same q below))

  pub total-write :
      (sees : ℕ → Record Payload → Bool) (s : Store Payload) (p : ℕ) (b : Bucket Payload)
      → IsTable c n s
      → p < n
      → IsBucket c n b
      → total c n sees (write c s p b) + count (sees p) (read c s p)
        ≡ total c n sees s + count (sees p) b
  unfolding total
  total-write sees s p b t hp v =
      let written : count (sees p) (read c (write c s p b) p) ≡ count (sees p) b =
        rw (read-write c n sized s p p b t hp hp v, eq→== p p refl)
          (count-stable_sort (sees p) b) in
      omega (
        arith,
        written,
        sum_below_update n (λ q. count (sees q) (read c (write c s p b) q))
            (λ q. count (sees q) (read c s q)) p hp
            (λ q below ne. rw (read-write c n sized s p q b t hp below v, ne→== p q ne)),
      )
