-- ===== src/Base/Outcome.antt =====
-- Code that may throw, with the exception classes that the program uses. `out_of_fuel` stands for a
-- loop that did not end within the fuel of the model.
use mathlib.Core.Path.{◌≡◌, refl}

pub data Error : Type 0 where
  logic_error invalid_argument runtime_error out_of_fuel : Error

pub data Result {ℓ} (A : Type ℓ) : Type ℓ where
  ok : A → Result A
  throw : Error → Result A

infixl 5 ◌>>=◌
abbrev pub ◌>>=◌ {ℓ κ} : {A : Type ℓ} {B : Type κ} → Result A → (A → Result B) → Result B
throw error >>= next = throw error
ok value >>= next = next value

-- The run ends normally, in a value that satisfies `P`.
abbrev pub Returns {ℓ κ} : {A : Type ℓ} → Result A → (A → Type κ) → Type (ℓ ⊔ κ)
Returns {A} r P = (a : A) × (r ≡ ok a) × P a

-- A chain that ends normally has a first part that does.
pub >>=-eq-ok {κ ℓ} :
    {From : Type κ} {To : Type ℓ} (first : Result From) (next : From → Result To) {value : To}
    → (first >>= next) ≡ ok value
    → (got : From) × (first ≡ ok got) × (next got ≡ ok value)
>>=-eq-ok (throw error) next run = cc
>>=-eq-ok (ok got) next run = (got, refl, run)
