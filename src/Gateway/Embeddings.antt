-- ===== src/Gateway/Embeddings.antt =====
-- The embeddings of ai-gateway.service.ts, text by text and in batches.
use ai_business_operating_sy.Base.{
  Bool, List, Option, String, Text, [], subst, sym, ◌∙◌, false, find, inl, inr, none, refl, some,
  true, ◌∷◌, ◌≡◌, ◌≢◌, ◌⊎◌, ap,
}
use ai_business_operating_sy.Gateway.Providers.{
  Reply, replied, refused, then_reply, available, Provider, Providers, get_provider, embed,
  embed_provider, embed_many_by, embed_some, embed_all, embed_batch_fallback, embed_batch,
  may_fall_back,
}

-- As many vectors as texts, each of its text
abbrev pub Pairwise : (Text → String → Type 0) → List Text → List String → Type 0
Pairwise P [] [] = Unit
Pairwise P (t ∷ ts) (v ∷ vs) = P t v × Pairwise P ts vs
Pairwise P _ _ = false ≡ true

-- What a provider documents of several texts at once: the vectors are those of the texts one by one.
abbrev pub IsBatched : Provider → Option (List Text → Option String → Reply (List String)) → Type 0
IsBatched p none = Unit
IsBatched p (some many) =
    (ts : List Text) (model : Option String) (vs : List String)
    → many ts model ≡ replied vs
    → Pairwise (λ t v. p.embed t model ≡ replied v) ts vs

Pairwise-mono :
    (P Q : Text → String → Type 0)
    → ((t : Text) (v : String) → P t v → Q t v)
    → (ts : List Text) (vs : List String) → Pairwise P ts vs
    → Pairwise Q ts vs
Pairwise-mono P Q f [] [] h = tt
Pairwise-mono P Q f (t ∷ ts) (v ∷ vs) (p, h) = (f t v p, Pairwise-mono P Q f ts vs h)
Pairwise-mono P Q f [] (v ∷ vs) h = h
Pairwise-mono P Q f (t ∷ ts) [] h = h

refused-ne-replied : (code message : String) (vs : List String) → refused code message ≢ replied vs
refused-ne-replied code message vs h = cc

module _ (ps : Providers) (model : Option String) where
  -- Each vector is what `embed` of the provider gives for its text.
  abbrev pub AreEmbedded : (id : String) → List Text → List String → Type 0
  AreEmbedded id = Pairwise (λ t v. embed ps t (some id) model ≡ replied v)

  embed_batch_fallback-AreEmbedded :
      (id : String) (ts : List Text) (vs : List String)
      → embed_batch_fallback ps ts (some id) model ≡ replied vs
      → AreEmbedded id ts vs
  unfolding embed_batch_fallback
  embed_batch_fallback-AreEmbedded id [] [] h = tt
  embed_batch_fallback-AreEmbedded id [] (v ∷ vs) h = cc
  embed_batch_fallback-AreEmbedded id (t ∷ ts) vs h =
      go (embed_batch_fallback-AreEmbedded id ts) (embed ps t (some id) model)
        (embed_batch_fallback ps ts (some id) model) vs refl refl h
    where
      go :
          ((us : List String)
            → embed_batch_fallback ps ts (some id) model ≡ replied us
            → AreEmbedded id ts us)
          → (r : Reply String) (rs : Reply (List String)) (vs : List String)
          → embed ps t (some id) model ≡ r
          → embed_batch_fallback ps ts (some id) model ≡ rs
          → then_reply r (λ v. then_reply rs (λ ws. replied (v ∷ ws))) ≡ replied vs
          → AreEmbedded id (t ∷ ts) vs
      go others (refused c m) rs vs e k h = cc
      go others (replied v) (refused c m) vs e k h = cc
      go others (replied v) (replied ws) [] e k h = cc
      go others (replied v) (replied ws) (w ∷ us) e k h =
          let same : v ≡ w = cc in
          let rest : ws ≡ us = cc in (e ∙ ap replied same, others us (k ∙ ap replied rest))

  many-AreEmbedded :
      (id : String) (p : Provider) (many : List Text → Option String → Reply (List String))
      (ts : List Text) (vs : List String)
      → find id ps ≡ some p
      → IsBatched p (some many)
      → many ts model ≡ replied vs
      → AreEmbedded id ts vs
  unfolding embed get_provider
  many-AreEmbedded id p many ts vs found batched h =
      Pairwise-mono (λ t v. p.embed t model ≡ replied v) _ (λ t v e. rw (embed, found, e) refl) ts
        vs (batched ts model vs h)

  -- Where each provider's vectors of several texts at once are those of the texts one by one, the
  -- vectors that a batch gives are, one for each text and in their order, those that `embed` gives for
  -- the texts, all by the provider asked or all by the provider for embeddings.
  pub embed_batch-AreEmbedded :
      (id : String) (p d : Provider) (ts : List Text) (vs : List String)
      → find id ps ≡ some p
      → find embed_provider ps ≡ some d
      → IsBatched p p.embed_many
      → IsBatched d d.embed_many
      → embed_batch ps ts (some id) model ≡ replied vs
      → AreEmbedded id ts vs ⊎ AreEmbedded embed_provider ts vs
  unfolding embed_batch get_provider
  embed_batch-AreEmbedded id p d [] [] found default batched batched_d h = inl tt
  embed_batch-AreEmbedded id p d [] (v ∷ vs) found default batched batched_d h = cc
  embed_batch-AreEmbedded id p d (t ∷ ts) vs found default batched batched_d h =
      go p.embed_many batched (
        subst
          (λ o.
            then_reply (available id o) (λ q. embed_some ps id (t ∷ ts) model q.embed_many)
            ≡ replied vs)
          found h)
    where
      by_default :
          (m : Option (List Text → Option String → Reply (List String)))
          → IsBatched d m
          → embed_all ps (t ∷ ts) model m ≡ replied vs
          → AreEmbedded embed_provider (t ∷ ts) vs
      by_default none b h = embed_batch_fallback-AreEmbedded embed_provider (t ∷ ts) vs h
      by_default (some many) b h = many-AreEmbedded embed_provider d many (t ∷ ts) vs default b h

      fell_back :
          (code message : String) (b : Bool)
          → may_fall_back code id ≡ b
          → embed_many_by ps id (t ∷ ts) model (refused code message) ≡ replied vs
          → AreEmbedded embed_provider (t ∷ ts) vs
      fell_back code message false e h =
          absurd (refused-ne-replied code message vs (sym (rw e refl) ∙ h))
      fell_back code message true e h =
          by_default d.embed_many batched_d (sym (rw (e, default) refl) ∙ h)

      replied_by :
          (many : List Text → Option String → Reply (List String)) (r : Reply (List String))
          → IsBatched p (some many)
          → many (t ∷ ts) model ≡ r
          → embed_many_by ps id (t ∷ ts) model r ≡ replied vs
          → AreEmbedded id (t ∷ ts) vs ⊎ AreEmbedded embed_provider (t ∷ ts) vs
      replied_by many (replied ws) b e h =
          inl (many-AreEmbedded id p many (t ∷ ts) vs found b (e ∙ h))
      replied_by many (refused code message) b e h =
          inr (fell_back code message (may_fall_back code id) refl h)

      go :
          (m : Option (List Text → Option String → Reply (List String)))
          → IsBatched p m
          → embed_some ps id (t ∷ ts) model m ≡ replied vs
          → AreEmbedded id (t ∷ ts) vs ⊎ AreEmbedded embed_provider (t ∷ ts) vs
      go none b h = inl (embed_batch_fallback-AreEmbedded id (t ∷ ts) vs h)
      go (some many) b h = replied_by many (many (t ∷ ts) model) b refl h
