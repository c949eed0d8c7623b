-- ===== src/Base/Service.antt =====
-- Service methods: they read and write a database and may throw an HTTP exception. What was
-- written before a throw stays; the few transactions of the source are one write each.
use mathlib.Core.Path.{◌≡◌, refl}
use mathlib.Core.Bool.{Bool, true, false}
use mathlib.Core.Option.{Option, none, some}
use Prim.Native.String.{String}

-- The exceptions of @nestjs/common with their messages; `internal` is a plain `Error`.
pub data Exception : Type 0 where
  not_found bad_request unauthorized forbidden conflict internal : String → Exception

pub data Result {ℓ} (A : Type ℓ) : Type ℓ where
  ok : A → Result A
  err : Exception → Result A

abbrev pub M : Type 0 → Type 0 → Type 0
M S A = S → Result A × S

abbrev pub bind_result : {S A B : Type 0} → Result A × S → (A → M S B) → Result B × S
bind_result (ok a, s) f = f a s
bind_result (err e, s) f = (err e, s)

infixl 5 ◌>>=◌ ◌>>◌
abbrev pub ◌>>=◌ : {S A B : Type 0} → M S A → (A → M S B) → M S B
◌>>=◌ m f s = bind_result (m s) f

abbrev pub ◌>>◌ : {S B : Type 0} → M S (Unit {0}) → M S B → M S B
m >> k = m >>= λ _. k

abbrev pub return : {S A : Type 0} → A → M S A
return a s = (ok a, s)

abbrev pub throw : {S A : Type 0} → Exception → M S A
throw e s = (err e, s)

-- `if (!b) throw e`
abbrev pub ensure : {S : Type 0} → Bool → Exception → M S (Unit {0})
ensure true e s = (ok tt, s)
ensure false e s = (err e, s)

-- `if (!o) throw e`
abbrev pub or_throw : {S A : Type 0} → Option A → Exception → M S A
or_throw none e s = (err e, s)
or_throw (some a) e s = (ok a, s)

abbrev pub get : {S : Type 0} → M S S
get s = (ok s, s)

abbrev pub write : {S : Type 0} → (S → S) → M S (Unit {0})
write f s = (ok tt, f s)

-- Inversion of a method that returned: what each step gave.
module _ {S A B : Type 0} (f : A → M S B) {s s' : S} {b : B} where
  pub or_throw-eq-ok :
      (o : Option A) (e : Exception)
      → bind_result (or_throw o e s) f ≡ (ok b, s')
      → (a : A) × (o ≡ some a) × (f a s ≡ (ok b, s'))
  or_throw-eq-ok none e h = cc
  or_throw-eq-ok (some a) e h = (a, refl, h)

  pub bind-eq-ok :
      (m : M S A)
      → bind_result (m s) f ≡ (ok b, s')
      → (a : A) × (t : S) × (m s ≡ (ok a, t)) × (f a t ≡ (ok b, s'))
  bind-eq-ok m h = go (m s) refl h
    where
      go :
          (r : Result A × S)
          → m s ≡ r
          → bind_result r f ≡ (ok b, s')
          → (a : A) × (t : S) × (m s ≡ (ok a, t)) × (f a t ≡ (ok b, s'))
      go (ok a, t) e k = (a, t, e, k)
      go (err x, t) e k = cc

module _ {S B : Type 0} (f : Unit {0} → M S B) {s s' : S} {b : B} where
  pub ensure-eq-ok :
      (c : Bool) (e : Exception)
      → bind_result (ensure c e s) f ≡ (ok b, s')
      → (c ≡ true) × (f tt s ≡ (ok b, s'))
  ensure-eq-ok true e h = (refl, h)
  ensure-eq-ok false e h = cc

-- What a method keeps true of the database, one step at a time.
pub bind_keeps {ℓ} :
    {S A B : Type 0} (P : S → Type ℓ) (f : A → M S B) (r : Result A × S)
    → P r.1
    → ((a : A) (s : S) → r ≡ (ok a, s) → P s → P (f a s).1)
    → P (bind_result r f).1
bind_keeps P f (ok a, s) p k = k a s refl p
bind_keeps P f (err e, s) p k = p

-- The two ways of a check, for a property of what comes of it.
module _ {ℓ} {S A B : Type 0} (Q : Result B × S → Type ℓ) where
  pub or_throw_cases :
      (f : A → M S B) (o : Option A) (e : Exception) (s : S)
      → (o ≡ none → Q (err e, s))
      → ((a : A) → o ≡ some a → Q (f a s))
      → Q (bind_result (or_throw o e s) f)
  or_throw_cases f none e s bad good = bad refl
  or_throw_cases f (some a) e s bad good = good a refl

pub ensure_cases {ℓ} :
    {S B : Type 0} (Q : Result B × S → Type ℓ) (f : Unit {0} → M S B) (c : Bool) (e : Exception)
    (s : S)
    → (c ≡ false → Q (err e, s))
    → (c ≡ true → Q (f tt s))
    → Q (bind_result (ensure c e s) f)
ensure_cases Q f true e s bad good = good refl
ensure_cases Q f false e s bad good = bad refl
