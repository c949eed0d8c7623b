-- ===== src/Knowledge/Chunker.antt =====
-- chunker/text-chunker.ts, on the code units of a text. The tokens of a text, which a library
-- encodes, and the decoding of bytes are parameters.
use ai_business_operating_sy.Base.{
  Option, none, some, Bool, List, Result, Text, [], drop, eqb, err, every, false, if◌then◌else◌,
  internal, keep, leb, length, ltb, map, not, ok, slice, starts_with, suc, true, zero, ℕ, ◌%◌, ◌&&◌,
  ◌*◌, ◌++◌, ◌+◌, ◌-◌, ◌||◌, ◌∷◌,
}

-- `encode` gives the tokens, unless it throws, `count` their number or, where it throws, an estimate, and
-- `decode_utf8` reads bytes.
pub record Tokens : Type 0 where
  pub count : Text → ℕ
  pub encode : Text → Option (List ℕ)
  pub decode_utf8 : List ℕ → Text

abbrev pub after : {A B : Type 0} → Option A → (A → Option B) → Option B
after none f = none
after (some a) f = f a

-- The end of a text with these tokens; `Uint8Array.from` keeps of each its last eight bits.
abbrev pub tail_of : Tokens → Text → (max_tokens : ℕ) → List ℕ → Text
tail_of t text n tokens =
    if leb (length tokens) n
    then text
    else t.decode_utf8 (map (λ c. c % 256) (drop (length tokens - n) tokens))

-- `tailTokens`, which throws where `encode` does
unfoldable pub tail_tokens : Tokens → Text → (max_tokens : ℕ) → Option Text
tail_tokens t text n = after (t.encode text) (λ tokens. some (tail_of t text n tokens))

-- What `trim` removes: the white space and line ends of JavaScript
unfoldable pub is_space : ℕ → Bool
is_space c =
    (leb 9 c && leb c 13)
    || eqb c 32
    || eqb c 160
    || eqb c 5760
    || (leb 8192 c && leb c 8202)
    || eqb c 8232
    || eqb c 8233
    || eqb c 8239
    || eqb c 8287
    || eqb c 12288
    || eqb c 65279

unfoldable pub trim_start : Text → Text
trim_start [] = []
trim_start (c ∷ s) = let rest = trim_start s in if is_space c then rest else c ∷ s

abbrev pub reverse {ℓ} : {A : Type ℓ} → List A → List A
reverse [] = []
reverse (x ∷ xs) = reverse xs ++ x ∷ []

-- `s.trim()`
abbrev pub trim : Text → Text
trim s = reverse (trim_start (reverse (trim_start s)))

-- `!s.trim()`
abbrev pub is_blank : Text → Bool
is_blank s = every is_space s

abbrev pub is_empty {ℓ} : {A : Type ℓ} → List A → Bool
is_empty [] = true
is_empty (_ ∷ _) = false

abbrev pub newline : Text
newline = 10 ∷ []

-- `.replace(/\r\n/g, '\n')`
unfoldable pub unix_lines : Text → Text
unix_lines [] = []
unix_lines (c ∷ s) =
    let rest = unix_lines s in if eqb c 13 && starts_with newline s then rest else c ∷ rest

-- `[ \t]`
abbrev pub is_tab_or_space : ℕ → Bool
is_tab_or_space c = eqb c 32 || eqb c 9

abbrev pub ends_line : Text → Bool
ends_line [] = false
ends_line (c ∷ s) = let rest = ends_line s in if is_tab_or_space c then rest else eqb c 10

-- `.replace(/[ \t]+\n/g, '\n')`
unfoldable pub trim_lines : Text → Text
trim_lines [] = []
trim_lines (c ∷ s) =
    let rest = trim_lines s in if is_tab_or_space c && ends_line s then rest else c ∷ rest

-- `.replace(/\n{3,}/g, '\n\n')`, with the line ends just before
unfoldable pub squeeze_lines : (before : ℕ) → Text → Text
squeeze_lines n [] = []
squeeze_lines n (c ∷ s) =
    let more = squeeze_lines (suc n) s in
    let other = squeeze_lines 0 s in
    if eqb c 10 then (if ltb n 2 then c ∷ more else more) else c ∷ other

abbrev pub starts_blank : Text → Bool
starts_blank [] = false
starts_blank (c ∷ s) = is_tab_or_space c

-- `.replace(/[ \t]{2,}/g, ' ')`, with whether a blank is just before
unfoldable pub squeeze_blanks : (before : Bool) → Text → Text
squeeze_blanks before [] = []
squeeze_blanks before (c ∷ s) =
    let rest = squeeze_blanks (is_tab_or_space c) s in
    if is_tab_or_space c && before
    then rest
    else (if is_tab_or_space c && starts_blank s then 32 else c) ∷ rest

-- `preClean`
abbrev pub pre_clean : Text → Text
pre_clean s = trim (squeeze_blanks false (squeeze_lines 0 (trim_lines (unix_lines s))))

-- `text.split(sep)`, with what is left of a separator and the part so far
unfoldable pub split_by : (sep : Text) → (skip : ℕ) → (part : Text) → Text → List Text
split_by sep k part [] = part ∷ []
split_by sep (suc k) part (c ∷ s) = split_by sep k part s
split_by sep zero part (c ∷ s) =
    let cut = part ∷ split_by sep (length sep - 1) [] s in
    let on = split_by sep zero (part ++ c ∷ []) s in if starts_with sep (c ∷ s) then cut else on

abbrev pub split_text : (sep text : Text) → List Text
split_text [] text = map (λ c. c ∷ []) text
split_text (c ∷ sep) text = split_by (c ∷ sep) 0 [] text

-- `out[out.length - 1] += sep`
abbrev pub add_last : (sep : Text) → List Text → List Text
add_last sep [] = []
add_last sep (s ∷ []) = (s ++ sep) ∷ []
add_last sep (s ∷ t ∷ ts) = s ∷ add_last sep (t ∷ ts)

-- `SEPARATORS`
abbrev pub separators : List Text
separators =
    (10 ∷ 10 ∷ [])
    ∷ (10 ∷ [])
    ∷ (46 ∷ 32 ∷ [])
    ∷ (33 ∷ 32 ∷ [])
    ∷ (63 ∷ 32 ∷ [])
    ∷ (59 ∷ 32 ∷ [])
    ∷ (44 ∷ 32 ∷ [])
    ∷ (32 ∷ [])
    ∷ []
    ∷ []

-- `hardSplit`, with the slices that are left
unfoldable pub hard_split_from : (fuel : ℕ) → (i : ℕ) → (approx : ℕ) → Text → List Text
hard_split_from zero i approx text = []
hard_split_from (suc n) i approx text =
    let rest = hard_split_from n (i + approx) approx text in
    if ltb i (length text) then slice text i (i + approx) ∷ rest else []

abbrev pub hard_split : Text → (chunk_size : ℕ) → List Text
hard_split text chunk_size = hard_split_from (length text) 0 (chunk_size * 4) text

-- The variables of `mergePieces`
pub record Merging : Type 0 where
  pub chunks : List Text
  pub buffer : Text
  pub buffer_tokens : ℕ

module _ (tokens : Tokens) where
  -- The parts that are left, each split further by `sub` if it is long and there is a next separator
  abbrev pub split_parts :
      (sep : Text)
      → (has_next : Bool) → (sub : Text → List Text) → (out parts : List Text) → List Text
  split_parts sep has_next sub out [] = out
  split_parts sep has_next sub out (p ∷ ps) =
      let last = is_empty ps in
      let new = out ++ (if has_next && ltb 800 (tokens.count p) then sub p else p ∷ []) in
      let next = if is_empty p then out else if last then new else add_last sep new in
      split_parts sep has_next sub next ps

  -- `recursiveSplit`
  unfoldable pub recursive_split : (seps : List Text) → Text → List Text
  recursive_split [] text = keep (λ s. not (is_blank s)) (text ∷ [])
  recursive_split (sep ∷ next) text =
      let parts = split_text sep text in
      let deeper = recursive_split next text in
      if eqb (length parts) 1 && not (is_empty next)
      then deeper
      else keep (λ s. not (is_blank s))
          (split_parts sep (not (is_empty next)) (recursive_split next) [] parts)

  -- `if (buffer) chunks.push(buffer)`
  abbrev pub committed : Merging → List Text
  committed m = if is_empty m.buffer then m.chunks else m.chunks ++ m.buffer ∷ []

  -- The buffer is a chunk, and its end begins the next one.
  abbrev pub next_buffer : Merging → (piece overlap_text : Text) → Merging
  next_buffer m piece overlap_text = record {
    chunks = m.chunks ++ m.buffer ∷ [];
    buffer = overlap_text ++ piece;
    buffer_tokens = tokens.count (overlap_text ++ piece);
  }

  -- One piece: too long by itself, too long for the buffer, or added to it
  abbrev pub merge_piece : (chunk_size chunk_overlap : ℕ) → Merging → Text → Option Merging
  merge_piece size overlap m piece =
      if ltb size (tokens.count piece)
      then some
          (record { chunks = committed m ++ hard_split piece size; buffer = []; buffer_tokens = 0 })
      else if ltb size (m.buffer_tokens + tokens.count piece)
      then after (tail_tokens tokens m.buffer overlap) (λ t. some (next_buffer m piece t))
      else some (record {
        chunks = m.chunks;
        buffer = m.buffer ++ piece;
        buffer_tokens = m.buffer_tokens + tokens.count piece;
      })

  unfoldable pub merge_all : (chunk_size chunk_overlap : ℕ) → Merging → List Text → Option Merging
  merge_all size overlap m [] = some m
  merge_all size overlap m (p ∷ ps) =
      after (merge_piece size overlap m p) (λ n. merge_all size overlap n ps)

  -- `if (buffer.trim()) chunks.push(buffer)`
  abbrev pub flushed : Merging → List Text
  flushed m = if is_blank m.buffer then m.chunks else m.chunks ++ m.buffer ∷ []

  -- `mergePieces`
  unfoldable pub merge_pieces : List Text → (chunk_size chunk_overlap : ℕ) → Option (List Text)
  merge_pieces ps size overlap =
      after (merge_all size overlap (record { chunks = []; buffer = []; buffer_tokens = 0 }) ps)
        (λ m. some (flushed m))

  abbrev pub trimmed : Option (List Text) → Result (List Text)
  trimmed none = err (internal "Disallowed special token found")
  trimmed (some chunks) = ok (keep (λ s. not (is_empty s)) (map trim chunks))

  -- `split`
  unfoldable pub split : Text → (chunk_size chunk_overlap : ℕ) → Result (List Text)
  split text size overlap =
      if is_blank text
      then ok []
      else if eqb size 0
      then err (internal "chunkSize must be > 0")
      else if leb size overlap
      then err (internal "chunkOverlap must be in [0, chunkSize)")
      else trimmed (merge_pieces (recursive_split separators (pre_clean text)) size overlap)
