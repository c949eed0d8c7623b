-- ===== src/Knowledge/Pieces.antt =====
-- What `hardSplit` and `mergePieces` of text-chunker.ts keep of a text.
use ai_business_operating_sy.Base.{
  Option, none, some, subst, ◌⊎◌, All, Bool-cases, List, Text, [], ap, arith, drop, drop_all, false,
  if◌then◌else◌, inl, inr, leb, length, length-take, ltb, refl, rejoin, slice, suc, sym, take, true,
  zero, ℕ, ◌*◌, ◌++◌, ◌+◌, ◌-◌, ◌<◌, ◌∙◌, ◌∷◌, ◌≡◌, ◌≤◌,
}
use mathlib.Core.List.{append-nil, append_assoc}
use ai_business_operating_sy.Knowledge.Chunker.{
  Tokens, after, tail_of, tail_tokens, is_blank, is_empty, hard_split_from, hard_split, Merging,
  committed, merge_piece, merge_all, flushed, merge_pieces,
}

-- The texts one after the other
abbrev pub flatten : List Text → Text
flatten [] = []
flatten (s ∷ ss) = s ++ flatten ss

flatten-append : (xs ys : List Text) → flatten (xs ++ ys) ≡ flatten xs ++ flatten ys
flatten-append [] ys = refl
flatten-append (x ∷ xs) ys =
    ap (λ z. x ++ z) (flatten-append xs ys) ∙ sym (append_assoc x (flatten xs) (flatten ys))

past : (i n : ℕ) → ltb i n ≡ false → n ≤ i
past i n h = ground arith

at_most : (a i : ℕ) (s : Text) → length (take (i + a - i) s) ≤ a
at_most a i s = let h = length-take (i + a - i) s in omega arith

short : (n i a : ℕ) (text : Text) → All (λ s. length s ≤ a) (hard_split_from n i a text)
unfolding hard_split_from
short zero i a text = tt
short (suc n) i a text = elim (Bool-cases (ltb i (length text))) [
  | inl more ↦ rw more (at_most a i (drop i text), short n (i + a) a text)
  | inr done ↦ rw done tt
]

hard_split_from-flatten :
    (n i a : ℕ) (text : Text)
    → 0 < a
    → length text ≤ n + i
    → flatten (hard_split_from n i a text) ≡ drop i text
unfolding hard_split_from
hard_split_from-flatten zero i a text pos enough = sym (drop_all i text (omega arith))
hard_split_from-flatten (suc n) i a text pos enough = elim (Bool-cases (ltb i (length text))) [
  | inl more ↦ rw more (
      ap (λ z. slice text i (i + a) ++ z)
        (hard_split_from-flatten n (i + a) a text pos (omega arith))
      ∙ rejoin i a text)
  | inr done ↦ rw done (sym (drop_all i text (past i (length text) done)))
]

-- `hardSplit` gives back the text when its pieces are joined, and each piece has at most four code
-- units for each token of the chunk's size.
pub hard_split-flatten :
    (text : Text) (size : ℕ)
    → 0 < size
    → (flatten (hard_split text size) ≡ text)
      × All (λ s. length s ≤ size * 4) (hard_split text size)
hard_split-flatten text size pos = (
  hard_split_from-flatten (length text) 0 (size * 4) text (omega arith) (omega arith),
  short (length text) 0 (size * 4) text,
)

more : (n : ℕ) → leb (suc n) 0 ≡ false
more n = ground arith

module _ (tokens : Tokens) where
  -- All that was read: the chunks and then the buffer
  abbrev read : Merging → Text
  read m = flatten m.chunks ++ m.buffer

  committed-flatten : (m : Merging) → flatten (committed tokens m) ≡ read m
  committed-flatten m = go m.buffer
    where
      go :
          (b : Text)
          → flatten (if is_empty b then m.chunks else m.chunks ++ b ∷ []) ≡ flatten m.chunks ++ b
      go [] = sym (append-nil (flatten m.chunks))
      go (c ∷ b) =
          flatten-append m.chunks ((c ∷ b) ∷ [])
          ∙ ap (λ z. flatten m.chunks ++ z) (append-nil (c ∷ b))

  -- The merging has thrown, since some text cannot be encoded, or it has read this text.
  abbrev Reads : Text → Option Merging → Type 0
  Reads text o =
      ((s : Text) × (tokens.encode s ≡ none) × (o ≡ none))
      ⊎ ((m : Merging) × (o ≡ some m) × (read m ≡ text))

  tail_tokens-zero :
      tokens.decode_utf8 [] ≡ []
      → ((s : Text) → tokens.encode s ≡ some [] → s ≡ [])
      → (s : Text) → (tokens.encode s ≡ none) ⊎ (tail_tokens tokens s 0 ≡ some [])
  unfolding tail_tokens
  tail_tokens-zero no_bytes no_tokens s = go (tokens.encode s) refl
    where
      go :
          (o : Option (List ℕ))
          → tokens.encode s ≡ o
          → (tokens.encode s ≡ none) ⊎ (after o (λ ts. some (tail_of tokens s 0 ts)) ≡ some [])
      go none e = inl e
      go (some []) e = inr (ap some (no_tokens s e))
      go (some (c ∷ ts)) e = inr (
          rw (more (length ts), drop_all (length (c ∷ ts) - 0) (c ∷ ts) (omega arith))
            (ap some no_bytes))

  merge_piece-Reads :
      (size : ℕ) (m : Merging) (piece : Text)
      → 0 < size
      → ((s : Text) → (tokens.encode s ≡ none) ⊎ (tail_tokens tokens s 0 ≡ some []))
      → Reads (read m ++ piece) (merge_piece tokens size 0 m piece)
  unfolding tail_tokens
  merge_piece-Reads size m piece pos tails = elim (Bool-cases (ltb size (tokens.count piece))) [
    | inl long ↦ rw long (
        inr (
          _,
          refl,
          append-nil (flatten (committed tokens m ++ hard_split piece size))
              ∙ flatten-append (committed tokens m) (hard_split piece size)
              ∙ ap (λ z. z ++ flatten (hard_split piece size)) (committed-flatten m)
              ∙ ap (λ z. read m ++ z) (hard_split-flatten piece size pos).0,
        ))
    | inr short ↦ elim (Bool-cases (ltb size (m.buffer_tokens + tokens.count piece))) [
      | inl full ↦ elim (tails m.buffer) [
        | inl broken ↦ rw (short, full, broken) (inl (m.buffer, broken, refl))
        | inr none_left ↦
            rw (short, full, none_left)
              (inr (
                _,
                refl,
                ap (λ z. z ++ piece)
                    (flatten-append m.chunks (m.buffer ∷ [])
                      ∙ ap (λ z. flatten m.chunks ++ z) (append-nil m.buffer)),
              ))
      ]
      | inr fits ↦
          rw (short, fits) (inr (_, refl, sym (append_assoc (flatten m.chunks) m.buffer piece)))
    ]
  ]

  merge_all-Reads :
      (size : ℕ) (ps : List Text) (m : Merging)
      → 0 < size
      → ((s : Text) → (tokens.encode s ≡ none) ⊎ (tail_tokens tokens s 0 ≡ some []))
      → Reads (read m ++ flatten ps) (merge_all tokens size 0 m ps)
  unfolding merge_all
  merge_all-Reads size [] m pos tails = inr (m, refl, sym (append-nil (read m)))
  merge_all-Reads size (p ∷ ps) m pos tails = elim (merge_piece-Reads size m p pos tails) [
    | inl (s, broken, threw) ↦
        inl (s, broken, ap (λ o. after o (λ k. merge_all tokens size 0 k ps)) threw)
    | inr (n, merged, e) ↦
        let text : read n ++ flatten ps ≡ read m ++ (p ++ flatten ps) =
          ap (λ z. z ++ flatten ps) e ∙ append_assoc (read m) p (flatten ps) in
        subst
          (λ o. Reads (read m ++ (p ++ flatten ps)) (after o (λ k. merge_all tokens size 0 k ps)))
          (sym merged)
          (subst (λ z. Reads z (merge_all tokens size 0 n ps)) text
            (merge_all-Reads size ps n pos tails))
  ]

  flushed-flatten :
      (m : Merging)
      → (rest : Text) × (is_blank rest ≡ true) × (flatten (flushed tokens m) ++ rest ≡ read m)
  flushed-flatten m = elim (Bool-cases (is_blank m.buffer)) [
    | inl blank ↦ rw blank (m.buffer, blank, refl)
    | inr some_text ↦ rw some_text (
      [],
      refl,
      append-nil (flatten (m.chunks ++ m.buffer ∷ []))
          ∙ flatten-append m.chunks (m.buffer ∷ [])
          ∙ ap (λ z. flatten m.chunks ++ z) (append-nil m.buffer),
    )
  ]

  -- Without an overlap the chunks that `mergePieces` makes are, one after the other, all that the pieces
  -- are, but for a rest of white space at the end, if the size is not 0, only the empty text has no
  -- tokens and no bytes are the empty text; it throws only if there is a text that cannot be encoded.
  pub merge_pieces-flatten :
      (ps : List Text) (size : ℕ)
      → 0 < size
      → tokens.decode_utf8 [] ≡ []
      → ((s : Text) → tokens.encode s ≡ some [] → s ≡ [])
      → ((s : Text) × (tokens.encode s ≡ none) × (merge_pieces tokens ps size 0 ≡ none))
        ⊎ ((chunks : List Text) × (rest : Text) × (merge_pieces tokens ps size 0 ≡ some chunks)
            × (is_blank rest ≡ true)
            × (flatten chunks ++ rest ≡ flatten ps))
  unfolding merge_pieces
  merge_pieces-flatten ps size pos no_bytes no_tokens =
      elim (merge_all-Reads size ps (record { chunks = []; buffer = []; buffer_tokens = 0 }) pos
        (tail_tokens-zero no_bytes no_tokens)) [
          | inl (s, broken, threw) ↦
              inl (s, broken, ap (λ o. after o (λ m. some (flushed tokens m))) threw)
          | inr (m, merged, e) ↦
              let (rest, blank, f) = flushed-flatten m in
              inr (
                flushed tokens m,
                rest,
                ap (λ o. after o (λ m. some (flushed tokens m))) merged,
                blank,
                f ∙ e,
              )
        ]
