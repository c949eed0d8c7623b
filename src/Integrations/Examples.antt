-- ===== src/Integrations/Examples.antt =====
-- An integration of the organization "acme" with one credential.
use ai_business_operating_sy.Base.{
  List, [], codes, false, find, none, ok, refl, some, true, ℕ, ◌++◌, ◌==◌, ◌∷◌, ◌≡◌,
}
use ai_business_operating_sy.Integrations.Credentials.{
  Cipher, IsSealed, encrypt, decrypt, decrypt-encrypt,
}
use ai_business_operating_sy.Integrations.Service.{
  Integration, IntegrationStatus, Credential, IntegrationsDb, Secrets, ConnectorContext,
  rotate_credential, resolve_integration,
}
use ai_business_operating_sy.Integrations.Resolved.{
  at_most_one, resolve_integration-rotate_credential,
}

abbrev iv : List ℕ
iv = 1 ∷ 2 ∷ 3 ∷ 4 ∷ 5 ∷ 6 ∷ 7 ∷ 8 ∷ 9 ∷ 10 ∷ 11 ∷ 12 ∷ []

abbrev tag : List ℕ
tag = 1 ∷ 2 ∷ 3 ∷ 4 ∷ 5 ∷ 6 ∷ 7 ∷ 8 ∷ 9 ∷ 10 ∷ 11 ∷ 12 ∷ 13 ∷ 14 ∷ 15 ∷ 16 ∷ []

abbrev ciphertext : List ℕ
ciphertext = 107 ∷ 101 ∷ 121 ∷ []

abbrev cipher : Cipher
cipher = record {
  utf8 = codes;
  from_utf8 = λ b. "key";
  base64 = λ b. "payload";
  from_base64 = λ s. iv ++ (tag ++ ciphertext);
  seal = λ iv p. (tag, p);
  open_sealed = λ iv t ct. some ct;
}

payload_not_empty : ("payload" == "") ≡ false
payload_not_empty = refl

key_IsSealed : IsSealed cipher iv "key"
key_IsSealed = record {
  tag = tag;
  ciphertext = ciphertext;
  seals = refl;
  opens = refl;
  tag_length = refl;
  ciphertext_length = refl;
  not_empty = payload_not_empty;
  encoded = refl;
  reads = refl;
}

decrypt-encrypt_example : decrypt cipher (encrypt cipher iv "key") ≡ ok "key"
decrypt-encrypt_example = decrypt-encrypt cipher iv "key" refl key_IsSealed

abbrev secrets : Secrets
secrets = record { encrypt = λ n v. v; decrypt = λ p. ok p }

abbrev mail : Integration
mail = record {
  organization_id = "acme";
  provider = "email";
  name = "Mail";
  type = "EMAIL";
  status = IntegrationStatus.active;
  configuration = none;
  last_sync_at = none;
}

abbrev password : Credential
password = record { integration_id = "i1"; credential_type = "password"; encrypted_value = "old" }

abbrev integrations : IntegrationsDb
integrations = record { integrations = ("i1", mail) ∷ []; credentials = password ∷ [] }

mail_found : find "i1" integrations.integrations ≡ some mail
unfolding find
mail_found = refl

one_password : at_most_one "i1" "password" integrations.credentials ≡ true
unfolding at_most_one
one_password = refl

resolve_integration-rotate_credential_example :
    (x : ConnectorContext) × ((resolve_integration secrets "acme" "i1"
        (rotate_credential secrets "acme" "i1" "password" "new" integrations).1).0
      ≡ ok x)
    × (find "password" x.credentials ≡ some "new")
resolve_integration-rotate_credential_example =
    resolve_integration-rotate_credential secrets "i1" "password" "acme" "new" mail integrations
      mail_found refl refl one_password
