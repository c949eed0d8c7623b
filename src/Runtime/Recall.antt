-- ===== src/Runtime/Recall.antt =====
-- What the model is told of what was said: `loadHistory` of agent-runtime.service.ts and the
-- short-term memory of memory.service.ts.
use ai_business_operating_sy.Base.{
  List, String, [], ap, arith, create, drop, drop-append, drop-drop, eq_refl, find, keep-append,
  length, length-append, length-drop, map, ok, refl, sym, take, take-append, ℕ, ◌++◌, ◌-◌, ◌==◌,
  ◌∙◌, ◌∷◌, ◌≡◌, ◌≤◌,
}
use mathlib.Core.List.{append-nil, append_assoc}
use ai_business_operating_sy.Runtime.State.{Message, Remembered, RuntimeDb}
use ai_business_operating_sy.Runtime.Memory.{keep_last, remembered, push_short_term, get_short_term}
use ai_business_operating_sy.Runtime.Prompt.{messages_of, as_chat, load_history}

module _ {ℓ} {A : Type ℓ} where
  pub length-keep_last : (n : ℕ) (xs : List A) → length (keep_last n xs) ≤ n
  length-keep_last n xs = rw (length-drop (length xs - n) xs) (omega arith)

  keep_all : (n : ℕ) (xs : List A) → length xs ≤ n → keep_last n xs ≡ xs
  keep_all n xs h = let e : length xs - n ≡ 0 = omega arith in ap (λ k. drop k xs) e

  -- What was dropped before makes no difference to what is kept of more.
  keep_last-keep_last :
      (n : ℕ) (xs ys : List A) → keep_last n (keep_last n xs ++ ys) ≡ keep_last n (xs ++ ys)
  keep_last-keep_last n xs ys =
      rw
        (
          sym (drop-append (length xs - n) xs ys (omega arith)),
          drop-drop (length (drop (length xs - n) (xs ++ ys)) - n) (length xs - n) (xs ++ ys),
        )
        (ap (λ k. drop k (xs ++ ys))
          (rw (length-drop (length xs - n) (xs ++ ys), length-append xs ys) (omega arith)))

-- The texts of a conversation that are pushed one after the other
unfoldable pub push_all : (conversation : String) → List Remembered → RuntimeDb → RuntimeDb
push_all conversation [] db = db
push_all conversation (r ∷ rs) db =
    push_all conversation rs (push_short_term conversation r.role r.content db).1

remembered-push :
    (k : String) (r : Remembered) (db : RuntimeDb)
    → remembered k (push_short_term k r.role r.content db).1.short_term
      ≡ keep_last 50 (remembered k db.short_term ++ r ∷ [])
unfolding push_short_term find create
remembered-push k r db = rw (eq_refl k) refl

-- The short-term memory of a conversation is the last fifty texts of what it held and of all that was
-- pushed since.
pub push_all-keep_last :
    (k : String) (rs : List Remembered) (db : RuntimeDb)
    → length (remembered k db.short_term) ≤ 50
    → (get_short_term k (push_all k rs db)).0 ≡ ok (keep_last 50 (remembered k db.short_term ++ rs))
unfolding get_short_term push_all
push_all-keep_last k [] db few = ap ok (
    sym (append-nil (remembered k db.short_term))
    ∙ sym (
        keep_all 50 (remembered k db.short_term ++ [])
          (rw (append-nil (remembered k db.short_term)) few)))
push_all-keep_last k (r ∷ rs) db few =
    let held = remembered k db.short_term in
    push_all-keep_last k rs (push_short_term k r.role r.content db).1
      (rw (remembered-push k r db) (length-keep_last 50 (held ++ r ∷ [])))
    ∙ ap ok (
        ap (λ xs. keep_last 50 (xs ++ rs)) (remembered-push k r db)
        ∙ keep_last-keep_last 50 (held ++ r ∷ []) rs
        ∙ ap (keep_last 50) (append_assoc held (r ∷ []) rs))

-- Once a conversation has fifty messages, the history that a model is sent never changes again,
-- whatever is said later.
pub load_history-append :
    (conversation : String) (old new : List Message)
    → 50 ≤ length (messages_of conversation old)
    → load_history conversation (old ++ new) ≡ load_history conversation old
unfolding load_history
load_history-append c old new many = ap (map as_chat) (
    ap (take 50) (keep-append (λ m. m.conversation_id == c) old new)
    ∙ take-append 50 (messages_of c old) (messages_of c new) many)
