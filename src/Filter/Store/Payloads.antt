-- ===== src/Filter/Store/Payloads.antt =====
-- The four payload writes of `WriteBucket`.
use vlse.Base.{
  ℕ, ◌+◌, ◌<◌, ◌≡◌, ◌∙◌, ◌⊎◌, arith, List, get_or, set, length, get_or-set, length-set, ◌==◌,
  if◌then◌else◌,
}

module _ {Payload : Type 0} where
  abbrev pub four_payloads : List Payload → ℕ → Payload → Payload → Payload → Payload → List Payload
  four_payloads ps at a b c d = set (set (set (set ps (at + 0) a) (at + 1) b) (at + 2) c) (at + 3) d

  pub length-four_payloads :
      (ps : List Payload) (at : ℕ) (a b c d : Payload)
      → length (four_payloads ps at a b c d) ≡ length ps
  length-four_payloads ps at a b c d =
      length-set (set (set (set ps (at + 0) a) (at + 1) b) (at + 2) c) (at + 3) d
      ∙ length-set (set (set ps (at + 0) a) (at + 1) b) (at + 2) c
      ∙ length-set (set ps (at + 0) a) (at + 1) b
      ∙ length-set ps (at + 0) a

  pub get_or-four_payloads :
      (ps : List Payload) (at : ℕ) (a b c d e : Payload) (i : ℕ)
      → at + 3 < length ps
      → get_or (four_payloads ps at a b c d) i e ≡ (
          if at + 3 == i
          then d
          else if at + 2 == i
          then c
          else if at + 1 == i
          then b
          else if at + 0 == i
          then a
          else get_or ps i e)
  get_or-four_payloads ps at a b c d e i h =
      let l₁ = length-set ps (at + 0) a in
      let l₂ = length-set (set ps (at + 0) a) (at + 1) b in
      let l₃ = length-set (set (set ps (at + 0) a) (at + 1) b) (at + 2) c in
      rw (
        get_or-set (set (set (set ps (at + 0) a) (at + 1) b) (at + 2) c) (at + 3) i d e
            (omega arith),
        get_or-set (set (set ps (at + 0) a) (at + 1) b) (at + 2) i c e (omega arith),
        get_or-set (set ps (at + 0) a) (at + 1) i b e (omega arith),
        get_or-set ps (at + 0) i a e (omega arith),
      )

  pub get_or-four_payloads_self :
      (ps : List Payload) (at : ℕ) (a b c d e : Payload)
      → at + 3 < length ps
      → (get_or (four_payloads ps at a b c d) (at + 0) e ≡ a)
        × (get_or (four_payloads ps at a b c d) (at + 1) e ≡ b)
        × (get_or (four_payloads ps at a b c d) (at + 2) e ≡ c)
        × (get_or (four_payloads ps at a b c d) (at + 3) e ≡ d)
  get_or-four_payloads_self ps at a b c d e h =
      let read = λ (i : ℕ). get_or-four_payloads ps at a b c d e i h in
      (
        read (at + 0) ∙ ground arith,
        read (at + 1) ∙ ground arith,
        read (at + 2) ∙ ground arith,
        read (at + 3) ∙ ground arith,
      )

  pub get_or-four_payloads_ne :
      (ps : List Payload) (at : ℕ) (a b c d e : Payload) (i : ℕ)
      → at + 3 < length ps
      → (i < at) ⊎ (at + 3 < i)
      → get_or (four_payloads ps at a b c d) i e ≡ get_or ps i e
  get_or-four_payloads_ne ps at a b c d e i h apart =
      get_or-four_payloads ps at a b c d e i h ∙ ground arith
