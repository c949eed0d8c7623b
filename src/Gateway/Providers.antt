-- ===== src/Gateway/Providers.antt =====
-- ai-gateway.service.ts, but for `chatStream` and the catalogues. A provider is a parameter: what it
-- answers to a request and to a text to embed.
use ai_business_operating_sy.Base.{
  Bool, List, Option, String, Table, Text, [], any, concat, find, if◌then◌else◌, none, not,
  or_default, or_else, some, such, ◌&&◌, ◌==◌, ◌∷◌,
}

-- How a call of a provider ends: with a value, or with an error that has a code and a message
pub data Reply {ℓ} (A : Type ℓ) : Type ℓ where
  replied : A → Reply A
  refused : (code message : String) → Reply A

abbrev pub then_reply : {A B : Type 0} → Reply A → (A → Reply B) → Reply B
then_reply (replied a) f = f a
then_reply (refused code message) f = refused code message

-- `embed_many` is there if the provider takes several texts at once; no model given is `none`.
pub record Provider : Type 0 where
  pub chat_models : List String
  pub chat : (request : String) → Reply String
  pub embed : Text → (model : Option String) → Reply String
  pub embed_many : Option (List Text → Option String → Reply (List String))

-- `providers`, in the order of their registration, and `embedProvider`
abbrev pub Providers : Type 0
Providers = Table Provider

abbrev pub embed_provider : String
embed_provider = "openai"

abbrev pub available : (id : String) → Option Provider → Reply Provider
available id none = refused "" (concat "AI provider \"" (concat id "\" not available"))
available id (some p) = replied p

-- `get`
unfoldable pub get_provider : Providers → (id : Option String) → Reply Provider
get_provider ps id = available (or_default id "openai") (find (or_default id "openai") ps)

-- `resolveModel`
unfoldable pub resolve_model : Providers → (provider model : String) → Reply Provider
resolve_model ps provider model = then_reply (get_provider ps (some provider)) (λ p.
    if any (λ m. m == model) p.chat_models
    then replied p
    else refused "" (concat "Model \"" (concat model "\" not found in provider")))

-- The first provider that has the model
abbrev pub provider_of : (model : String) → Providers → Option String
provider_of model [] = none
provider_of model ((id, p) ∷ ps) =
    let rest = provider_of model ps in if any (λ m. m == model) p.chat_models then some id else rest

-- `chat`: the hinted provider, or the first that has the model, or the default one
unfoldable pub chat : Providers → (model request : String) → (hint : Option String) → Reply String
chat ps model request hint =
    then_reply
      (get_provider ps (
        some
          (or_default (or_else (such (λ h. not (h == "")) hint) (provider_of model ps)) "openai")))
      (λ p. p.chat request)

-- `e?.code === 'invalid_request' && id !== this.embedProvider`
abbrev pub may_fall_back : (code id : String) → Bool
may_fall_back code id = code == "invalid_request" && not (id == embed_provider)

abbrev pub embedded : Providers → (id : String) → Text → Reply String → Reply String
embedded ps id text (replied v) = replied v
embedded ps id text (refused code message) =
    if may_fall_back code id
    then then_reply (get_provider ps (some embed_provider)) (λ d. d.embed text none)
    else refused code message

-- `embed`; the provider by default is the one for embeddings.
unfoldable pub embed : Providers → Text → (provider model : Option String) → Reply String
embed ps text provider model =
    let id = or_default provider embed_provider in
    then_reply (get_provider ps (some id)) (λ p. embedded ps id text (p.embed text model))

-- `embedBatchFallback`
unfoldable pub embed_batch_fallback :
    Providers → List Text → (provider model : Option String) → Reply (List String)
embed_batch_fallback ps [] provider model = replied []
embed_batch_fallback ps (t ∷ ts) provider model =
    then_reply (embed ps t provider model)
      (λ v. then_reply (embed_batch_fallback ps ts provider model) (λ vs. replied (v ∷ vs)))

-- The texts at once by the provider for embeddings if it can, or one by one
abbrev pub embed_all :
    Providers
    → List Text
    → (model : Option String) → Option (List Text → Option String → Reply (List String))
    → Reply (List String)
embed_all ps texts model none = embed_batch_fallback ps texts (some embed_provider) model
embed_all ps texts model (some many) = many texts model

abbrev pub embed_many_by :
    Providers
    → (id : String) → List Text
    → Option String
    → Reply (List String)
    → Reply (List String)
embed_many_by ps id texts model (replied vs) = replied vs
embed_many_by ps id texts model (refused code message) =
    if may_fall_back code id
    then then_reply (get_provider ps (some embed_provider))
        (λ d. embed_all ps texts model d.embed_many)
    else refused code message

abbrev pub embed_some :
    Providers
    → (id : String) → List Text
    → Option String
    → Option (List Text → Option String → Reply (List String))
    → Reply (List String)
embed_some ps id texts model none = embed_batch_fallback ps texts (some id) model
embed_some ps id texts model (some many) = embed_many_by ps id texts model (many texts model)

-- `embedBatch`
unfoldable pub embed_batch :
    Providers → List Text → (provider model : Option String) → Reply (List String)
embed_batch ps [] provider model = replied []
embed_batch ps (t ∷ ts) provider model =
    let id = or_default provider embed_provider in
    then_reply (get_provider ps (some id)) (λ p. embed_some ps id (t ∷ ts) model p.embed_many)
