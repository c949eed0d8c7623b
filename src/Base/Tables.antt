-- ===== src/Base/Tables.antt =====
-- A database table as its rows under their primary keys. The keys are unique in the database, so
-- that a query by primary key sees the first row alone.
use mathlib.Core.Path.{◌≡◌, refl}
use mathlib.Core.Bool.{Bool, false}
use mathlib.Core.Option
use mathlib.Core.Option.{Option, none, some}
use mathlib.Core.List.{List, [], ◌∷◌}
use Prim.Native.String.{String}
use native.Mathlib.Omega.{arith}
use text.Mathlib.Text.{◌==◌}
use text.Mathlib.TextEquality.{eq_iff}
use ai_business_operating_sy.Base.Tests.{if◌then◌else◌}

abbrev pub Table {ℓ} : Type ℓ → Type ℓ
Table A = List (String × A)

module _ {ℓ} {A : Type ℓ} where
  -- `findUnique({ where: { id } })`
  unfoldable pub find : String → Table A → Option A
  find k [] = none
  find k ((j, a) ∷ t) = if j == k then some a else find k t

  -- `update({ where: { id } })` of a row that is there
  unfoldable pub modify : String → (A → A) → Table A → Table A
  modify k f [] = []
  modify k f ((j, a) ∷ t) = if j == k then (j, f a) ∷ t else (j, a) ∷ modify k f t

  -- `updateMany({ where })`
  unfoldable pub modify_where : (A → Bool) → (A → A) → Table A → Table A
  modify_where p f [] = []
  modify_where p f ((j, a) ∷ t) = (j, if p a then f a else a) ∷ modify_where p f t

  -- `create`
  unfoldable pub create : String → A → Table A → Table A
  create k a t = (k, a) ∷ t

  -- `delete({ where: { id } })`
  unfoldable pub remove : String → Table A → Table A
  remove k [] = []
  remove k ((j, a) ∷ t) = let rest = remove k t in if j == k then rest else (j, a) ∷ rest

  -- `deleteMany({ where })`
  unfoldable pub remove_where : (A → Bool) → Table A → Table A
  remove_where p [] = []
  remove_where p ((j, a) ∷ t) = let rest = remove_where p t in if p a then rest else (j, a) ∷ rest

  pub find-modify :
      (j k : String) (f : A → A) (t : Table A)
      → find j (modify k f t) ≡ (if k == j then Option.map f (find j t) else find j t)
  unfolding find modify
  find-modify j k f [] = ground (arith, eq_iff k j)
  find-modify j k f ((i, a) ∷ t) =
      ground (arith, eq_iff k j, eq_iff i k, eq_iff i j, find-modify j k f t)

  pub find-modify_where :
      (j : String) (p : A → Bool) (f : A → A) (t : Table A)
      → find j (modify_where p f t) ≡ Option.map (λ a. if p a then f a else a) (find j t)
  unfolding find modify_where
  find-modify_where j p f [] = refl
  find-modify_where j p f ((i, a) ∷ t) = ground (arith, find-modify_where j p f t)

  pub find-create :
      (j k : String) (a : A) (t : Table A)
      → find j (create k a t) ≡ (if k == j then some a else find j t)
  unfolding find create
  find-create j k a t = refl

  pub find-remove :
      (j k : String) (t : Table A) → find j (remove k t) ≡ (if k == j then none else find j t)
  unfolding find remove
  find-remove j k [] = ground (arith, eq_iff k j)
  find-remove j k ((i, a) ∷ t) =
      ground (arith, eq_iff k j, eq_iff i k, eq_iff i j, find-remove j k t)

-- A nullable column compared with a text.
abbrev pub equals : Option String → String → Bool
equals none s = false
equals (some r) s = r == s

pub find-remove_where {ℓ} :
    {A : Type ℓ} (j : String) (p : A → Bool) (t : Table A) (a : A)
    → find j t ≡ some a
    → p a ≡ false
    → find j (remove_where p t) ≡ some a
unfolding find remove_where
find-remove_where j p [] a h k = absurd (ground arith)
find-remove_where j p ((i, b) ∷ t) a h k = ground (arith, find-remove_where j p t a)
