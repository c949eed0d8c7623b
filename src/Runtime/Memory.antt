-- ===== src/Runtime/Memory.antt =====
-- memory.service.ts: the short-term memory of a conversation, a list in Redis. That its key expires
-- after half an hour without a call is left to Redis. The long-term memory is raw SQL on vectors.
use ai_business_operating_sy.Base.{
  List, M, String, Table, [], create, drop, find, get, length, or_default, remove, return, write, ℕ,
  ◌++◌, ◌-◌, ◌>>=◌, ◌∷◌,
}
use ai_business_operating_sy.Runtime.State.{MessageRole, Remembered, RuntimeDb}

-- `ltrim(key, -n, -1)`: the last n elements
abbrev pub keep_last {ℓ} : {A : Type ℓ} → ℕ → List A → List A
keep_last n xs = drop (length xs - n) xs

abbrev pub remembered : String → Table (List Remembered) → List Remembered
remembered conversation t = or_default (find conversation t) []

-- `pushShortTerm`: rpush, then ltrim(key, -50, -1)
unfoldable pub push_short_term :
    (conversation : String) → MessageRole → (content : String) → M RuntimeDb (Unit {0})
push_short_term conversation role content = write (λ d. record d {
  short_term =
      create conversation
        (keep_last 50
          (remembered conversation d.short_term ++ record { role = role; content = content } ∷ []))
        (remove conversation d.short_term);
})

-- `getShortTerm`
unfoldable pub get_short_term : (conversation : String) → M RuntimeDb (List Remembered)
get_short_term conversation = do db ← get; return (remembered conversation db.short_term)
