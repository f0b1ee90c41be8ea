-- ===== src/Filter/Store/Writes.antt =====
-- A run of field writes to one bucket, as `WriteBucket` makes it, seen field by field.

use vlse.Base.{ℕ, ◌%◌, ◌^◌, ◌≤◌, ◌<◌, ◌≡◌, refl, ◌∙◌, ◌⊎◌, ◌≢◌, inl, inr, List, [], ◌∷◌, ℕ_discrete}
use vlse.Filter.Store.{field_start}
use vlse.Filter.Store.Fields.{
  IsStorage, IsSized, field_width, write_field-IsStorage, read_field-write_field_self,
  read_field-write_field_ne,
}
use vlse.Storage.{read_bits, write_bits}

-- Writes of fields `ks` of bucket `p`, with the values `v`.
unfoldable pub write_fields : ℕ → ℕ → (ℕ → ℕ) → List ℕ → List ℕ → List ℕ
write_fields f p v [] s = s
write_fields f p v (k ∷ ks) s =
    write_fields f p v ks (write_bits s (field_start f p k) (field_width f k) (v k))

abbrev pub field : ℕ → List ℕ → ℕ → ℕ → ℕ
field f s q k = read_bits s (field_start f q k) (field_width f k)

abbrev pub AllSmall : List ℕ → Type 0
AllSmall [] = Unit {0}
AllSmall (k ∷ ks) = (k ≤ 4) × AllSmall ks

abbrev pub Among : ℕ → List ℕ → Type 0
Among k [] = ⊥
Among k (j ∷ ks) = (k ≡ j) ⊎ Among k ks

module _ (f n : ℕ) (sized : IsSized f n) (p : ℕ) (below : p < n) (v : ℕ → ℕ) where
  pub write_fields-IsStorage :
      (ks s : List ℕ) → AllSmall ks → IsStorage f n s → IsStorage f n (write_fields f p v ks s)
  unfolding write_fields
  write_fields-IsStorage [] s small w = w
  write_fields-IsStorage (k ∷ ks) s small w =
      write_fields-IsStorage ks _ small.1
        (write_field-IsStorage f n sized s p k (v k) w below small.0)

  pub field-write_fields_ne :
      (ks s : List ℕ) (q m : ℕ)
      → AllSmall ks
      → IsStorage f n s
      → q < n
      → m ≤ 4
      → p ≢ q
      → field f (write_fields f p v ks s) q m ≡ field f s q m
  unfolding write_fields
  field-write_fields_ne [] s q m small w h few ne = refl
  field-write_fields_ne (k ∷ ks) s q m small w h few ne =
      field-write_fields_ne ks _ q m small.1
        (write_field-IsStorage f n sized s p k (v k) w below small.0) h few ne
      ∙ read_field-write_field_ne f n sized s p k q m (v k) w below h small.0 few (inl ne)

  pub field-write_fields :
      (ks s : List ℕ) (m : ℕ)
      → AllSmall ks
      → IsStorage f n s
      → m ≤ 4
      → Among m ks ⊎ (field f s p m ≡ v m % 2 ^ field_width f m)
      → field f (write_fields f p v ks s) p m ≡ v m % 2 ^ field_width f m
  unfolding write_fields
  field-write_fields [] s m small w few (inl a) = absurd a
  field-write_fields [] s m small w few (inr e) = e
  field-write_fields (k ∷ ks) s m small w few a =
      field-write_fields ks _ m small.1
        (write_field-IsStorage f n sized s p k (v k) w below small.0) few (now a)
    where
      written :
          field f (write_bits s (field_start f p k) (field_width f k) (v k)) p k
          ≡ v k % 2 ^ field_width f k
      written = read_field-write_field_self f n sized s p k (v k) w below small.0

      now :
          Among m (k ∷ ks) ⊎ (field f s p m ≡ v m % 2 ^ field_width f m)
          → Among m ks
            ⊎ (field f (write_bits s (field_start f p k) (field_width f k) (v k)) p m
                ≡ v m % 2 ^ field_width f m)
      now (inl (inl e)) = inr (rw e written)
      now (inl (inr b)) = inl b
      now (inr e) = elim (ℕ_discrete k m) [
        | yes same ↦ inr (rw (← same) written)
        | no ne ↦ inr (
            read_field-write_field_ne f n sized s p k p m (v k) w below below small.0 few (inr ne)
            ∙ e)
      ]
