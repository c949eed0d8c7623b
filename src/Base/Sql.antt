-- ===== src/Base/Sql.antt =====
-- The call of a raw statement of the database client, `$queryRawUnsafe(query, ...values)` or
-- `$executeRawUnsafe(query, ...values)`, which is a parameter of the services that make one.
use mathlib.Core.Path.{◌≡◌, refl}
use mathlib.Core.Bool.{Bool, true, false}
use mathlib.Core.Logic.{inl, inr}
use mathlib.Core.List.{List, [], ◌∷◌}
use Prim.Native.Nat.{ℕ, zero, suc}
use ai_business_operating_sy.Base.Tests.{Bool-cases}
use ai_business_operating_sy.Base.Service.{M, ensure, internal}

-- What a service passes after the text of a statement: a value, or an array of values
pub data Argument : Type 0 where
  value array : Argument

-- Whether a statement with placeholders $1 … $n runs with these arguments
abbrev pub RawClient : Type 0
RawClient = ℕ → List Argument → Bool

abbrev pub values : ℕ → List Argument
values zero = []
values (suc n) = value ∷ values n

-- The arguments are spread: each placeholder, of a type that is no array's, takes one value.
abbrev pub Spreads : RawClient → Type 0
Spreads raw = (n : ℕ) (given : List Argument) → raw n given ≡ true → given ≡ values n

abbrev pub run_raw : {S : Type 0} → RawClient → (n : ℕ) → List Argument → M S (Unit {0})
run_raw raw n given = ensure (raw n given) (internal "Raw query failed")

pub array_is_refused : (raw : RawClient) → Spreads raw → (n : ℕ) → raw n (array ∷ []) ≡ false
array_is_refused raw spreads n = elim (Bool-cases (raw n (array ∷ []))) [
  | inr refused ↦ refused
  | inl runs ↦ other n (spreads n (array ∷ []) runs)
]
  where
    other : (n : ℕ) → array ∷ [] ≡ values n → raw n (array ∷ []) ≡ false
    other zero h = cc
    other (suc n) h = cc

-- A client that spreads its arguments
abbrev pub spreading : RawClient
spreading zero [] = true
spreading (suc n) (value ∷ given) = spreading n given
spreading _ _ = false

pub spreading-Spreads : Spreads spreading
spreading-Spreads zero [] h = refl
spreading-Spreads zero (a ∷ given) h = cc
spreading-Spreads (suc n) [] h = cc
spreading-Spreads (suc n) (value ∷ given) h = rw (spreading-Spreads n given h) refl
spreading-Spreads (suc n) (array ∷ given) h = cc
