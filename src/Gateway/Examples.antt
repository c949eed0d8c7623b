-- ===== src/Gateway/Examples.antt =====
-- Two providers: one without embeddings, and the one for embeddings.
use ai_business_operating_sy.Base.{
  map, ◌⊎◌, List, Text, [], codes, find, none, refl, some, ◌∷◌, ◌≡◌,
}
use ai_business_operating_sy.Gateway.Providers.{
  replied, refused, Provider, Providers, get_provider, embed_provider, embed_batch,
}
use ai_business_operating_sy.Gateway.Embeddings.{IsBatched, AreEmbedded, embed_batch-AreEmbedded}

abbrev openai : Provider
openai = record {
  chat_models = "gpt-4o-mini" ∷ [];
  chat = λ r. replied "hello";
  embed = λ text model. replied "[1]";
  embed_many = some (λ ts model. replied (map (λ t. "[1]") ts));
}

abbrev anthropic : Provider
anthropic = record {
  chat_models = "claude" ∷ [];
  chat = λ r. replied "hello";
  embed = λ text model. refused "invalid_request" "no embeddings";
  embed_many = some (λ ts model. refused "invalid_request" "no embeddings");
}

abbrev providers : Providers
providers = ("openai", openai) ∷ ("anthropic", anthropic) ∷ []

abbrev texts : List Text
texts = codes "one" ∷ codes "two" ∷ []

anthropic_found : find "anthropic" providers ≡ some anthropic
unfolding find
anthropic_found = refl

openai_found : find embed_provider providers ≡ some openai
unfolding find
openai_found = refl

openai-IsBatched : IsBatched openai openai.embed_many
openai-IsBatched [] model [] h = tt
openai-IsBatched [] model (v ∷ vs) h = cc
openai-IsBatched (t ∷ ts) model [] h = cc
openai-IsBatched (t ∷ ts) model (v ∷ vs) h = (cc, openai-IsBatched ts model vs cc)

anthropic-IsBatched : IsBatched anthropic anthropic.embed_many
anthropic-IsBatched ts model vs h = cc

-- The provider asked refuses, and the one for embeddings is asked instead.
texts_embedded : embed_batch providers texts (some "anthropic") none ≡ replied ("[1]" ∷ "[1]" ∷ [])
unfolding embed_batch get_provider find
texts_embedded = refl

embed_batch-AreEmbedded_example :
    AreEmbedded providers none "anthropic" texts ("[1]" ∷ "[1]" ∷ [])
    ⊎ AreEmbedded providers none embed_provider texts ("[1]" ∷ "[1]" ∷ [])
embed_batch-AreEmbedded_example =
    embed_batch-AreEmbedded providers none "anthropic" anthropic openai texts ("[1]" ∷ "[1]" ∷ [])
      anthropic_found openai_found anthropic-IsBatched openai-IsBatched texts_embedded
