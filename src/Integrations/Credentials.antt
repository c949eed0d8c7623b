-- ===== src/Integrations/Credentials.antt =====
-- credentials.service.ts. AES-256-GCM, base64 and UTF-8 are parameters; the random bytes of an
-- initialization vector are an argument, and the derivation of the key is left out.
use ai_business_operating_sy.Base.{
  Bool-cases, List, Option, Result, String, [], ap, arith, drop, drop-drop, eqb, err, false,
  if◌then◌else◌, inl, inr, internal, length, length-append, ltb, none, ok, refl, slice, some, suc,
  sym, take, true, zero, ℕ, ◌++◌, ◌+◌, ◌==◌, ◌∙◌, ◌∷◌, ◌≡◌,
}

-- `seal` gives the tag and the ciphertext; `open_sealed` gives the plaintext if the tag fits.
pub record Cipher : Type 0 where
  pub utf8 : String → List ℕ
  pub from_utf8 : List ℕ → String
  pub base64 : List ℕ → String
  pub from_base64 : String → List ℕ
  pub seal : (iv plaintext : List ℕ) → List ℕ × List ℕ
  pub open_sealed : (iv tag ciphertext : List ℕ) → Option (List ℕ)

module _ (c : Cipher) where
  abbrev pub sealed : (iv : List ℕ) → List ℕ × List ℕ → List ℕ
  sealed iv p = iv ++ (p.0 ++ p.1)

  -- `encrypt`
  unfoldable pub encrypt : (iv : List ℕ) → (plaintext : String) → String
  encrypt iv s = c.base64 (sealed iv (c.seal iv (c.utf8 s)))

  abbrev pub opened : Option (List ℕ) → Result String
  opened none = err (internal "Unsupported state or unable to authenticate data")
  opened (some b) = ok (c.from_utf8 b)

  abbrev pub decrypt_bytes : List ℕ → Result String
  decrypt_bytes buf =
      if ltb (length buf) (12 + 16 + 1)
      then err (internal "Encrypted payload too short")
      else opened (c.open_sealed (slice buf 0 12) (slice buf 12 28) (drop 28 buf))

  -- `decrypt`
  unfoldable pub decrypt : (payload : String) → Result String
  decrypt payload =
      if payload == ""
      then err (internal "decrypt() expects a non-empty base64 string")
      else decrypt_bytes (c.from_base64 payload)

  -- What the libraries do with one secret: the payload is read back as the bytes that it was made of, the
  -- tag has sixteen bytes and the ciphertext those of the plaintext, and it opens.
  pub record IsSealed (iv : List ℕ) (s : String) : Type 0 where
    pub tag : List ℕ
    pub ciphertext : List ℕ
    pub seals : c.seal iv (c.utf8 s) ≡ (tag, ciphertext)
    pub opens : c.open_sealed iv tag ciphertext ≡ some (c.utf8 s)
    pub tag_length : length tag ≡ 16
    pub ciphertext_length : length ciphertext ≡ length (c.utf8 s)
    pub not_empty : (c.base64 (iv ++ (tag ++ ciphertext)) == "") ≡ false
    pub encoded : c.from_base64 (c.base64 (iv ++ (tag ++ ciphertext))) ≡ iv ++ (tag ++ ciphertext)
    pub reads : c.from_utf8 (c.utf8 s) ≡ s

  take_all {ℓ} : {A : Type ℓ} (n : ℕ) (xs ys : List A) → length xs ≡ n → take n (xs ++ ys) ≡ xs
  take_all zero [] ys h = refl
  take_all zero (x ∷ xs) ys h = absurd (omega arith)
  take_all (suc n) [] ys h = absurd (omega arith)
  take_all (suc n) (x ∷ xs) ys h = ap (λ zs. x ∷ zs) (take_all n xs ys (omega arith))

  drop_first {ℓ} : {A : Type ℓ} (n : ℕ) (xs ys : List A) → length xs ≡ n → drop n (xs ++ ys) ≡ ys
  drop_first zero [] ys h = refl
  drop_first zero (x ∷ xs) ys h = absurd (omega arith)
  drop_first (suc n) [] ys h = absurd (omega arith)
  drop_first (suc n) (x ∷ xs) ys h = drop_first n xs ys (omega arith)

  sizes :
      (iv tag ct : List ℕ) (n : ℕ)
      → length iv ≡ 12
      → length tag ≡ 16
      → length ct ≡ n
      → length (iv ++ (tag ++ ct)) ≡ 28 + n
  sizes iv tag ct n a b e =
      rw (length-append iv (tag ++ ct), length-append tag ct, a, b, e) (omega arith)

  short : (k n : ℕ) → k ≡ 28 + n → eqb n 0 ≡ true → ltb k 29 ≡ true
  short k n e h = ground arith

  long : (k n : ℕ) → k ≡ 28 + n → eqb n 0 ≡ false → ltb k 29 ≡ false
  long k n e h = ground arith

  decrypt-decrypt_bytes :
      (payload : String)
      → (payload == "") ≡ false
      → decrypt payload ≡ decrypt_bytes (c.from_base64 payload)
  unfolding decrypt
  decrypt-decrypt_bytes payload filled = rw filled refl

  -- With a vector of twelve bytes, an encrypted secret that the libraries open again is decrypted to
  -- itself, unless it is empty: then its payload is refused as too short.
  pub decrypt-encrypt :
      (iv : List ℕ) (s : String)
      → length iv ≡ 12
      → IsSealed iv s
      → decrypt (encrypt iv s)
        ≡ (if eqb (length (c.utf8 s)) 0 then err (internal "Encrypted payload too short") else ok s)
  unfolding encrypt decrypt
  decrypt-encrypt iv s twelve h =
      let buf = iv ++ (h.tag ++ h.ciphertext) in
      let first_part : take 12 buf ≡ iv = take_all 12 iv (h.tag ++ h.ciphertext) twelve in
      let rest : drop 12 buf ≡ h.tag ++ h.ciphertext =
        drop_first 12 iv (h.tag ++ h.ciphertext) twelve in
      let middle : take 16 (drop 12 buf) ≡ h.tag =
        ap (take 16) rest ∙ take_all 16 h.tag h.ciphertext h.tag_length in
      let last_part : drop 28 buf ≡ h.ciphertext =
        sym (drop-drop 16 12 buf)
        ∙ ap (drop 16) rest
        ∙ drop_first 16 h.tag h.ciphertext h.tag_length in
      let total =
        sizes iv h.tag h.ciphertext (length (c.utf8 s)) twelve h.tag_length h.ciphertext_length in
      ap decrypt (ap (λ p. c.base64 (sealed iv p)) h.seals)
      ∙ decrypt-decrypt_bytes (c.base64 buf) h.not_empty
      ∙ ap decrypt_bytes h.encoded
      ∙ (elim (Bool-cases (eqb (length (c.utf8 s)) 0)) [
        | inl empty ↦ rw (empty, short (length buf) (length (c.utf8 s)) total empty) refl
        | inr filled ↦
            rw
              (
                filled,
                long (length buf) (length (c.utf8 s)) total filled,
                first_part,
                middle,
                last_part,
                h.opens,
                h.reads,
              )
              refl
      ])
