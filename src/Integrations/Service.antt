-- ===== src/Integrations/Service.antt =====
-- integrations.service.ts. The secrets of credentials.service.ts are an interface, and a connector is what
-- its `ping` answers; a random initialization vector comes with the number of the credential.
use ai_business_operating_sy.Base.{
  Bool, List, M, Option, Result, String, Table, [], any, bad_request, create, ensure, err, false,
  find, get, if◌then◌else◌, internal, is_some, modify, none, not, not_found, ok, or_default,
  or_else, or_throw, remove, return, some, suc, such, true, write, ℕ, ◌&&◌, ◌++◌, ◌==◌, ◌>>=◌, ◌>>◌,
  ◌∷◌,
}

pub data IntegrationStatus : Type 0 where
  active inactive error : IntegrationStatus

pub record Integration : Type 0 where
  pub organization_id : String
  pub provider : String
  pub name : String
  pub type : String
  pub status : IntegrationStatus
  pub configuration : Option String
  pub last_sync_at : Option ℕ

-- A row of `integration_credentials`
pub record Credential : Type 0 where
  pub integration_id : String
  pub credential_type : String
  pub encrypted_value : String

-- The credentials are in the order of their creation.
pub record IntegrationsDb : Type 0 where
  pub integrations : Table Integration
  pub credentials : List Credential

pub record Secrets : Type 0 where
  pub encrypt : (number : ℕ) → (plaintext : String) → String
  pub decrypt : (payload : String) → Result String

pub record ConnectorContext : Type 0 where
  pub organization_id : String
  pub credentials : Table String
  pub config : Option String

pub record ConnectorResult : Type 0 where
  pub succeeded : Bool
  pub error : Option String

-- `connectors`, under their ids
abbrev pub Connectors : Type 0
Connectors = Table (ConnectorContext → ConnectorResult)

pub record CreateIntegration : Type 0 where
  pub provider : String
  pub name : String
  pub type : String
  pub configuration : Option String
  pub credentials : List (String × String)

-- `get`
unfoldable pub get_integration : (org id : String) → M IntegrationsDb Integration
get_integration org id = do
  db ← get
  or_throw (such (λ i. i.organization_id == org) (find id db.integrations))
      (not_found "Integration not found")

-- `integrationCredential.create` of each credential, encrypted
unfoldable pub store_credentials :
    Secrets → (id : String) → (number : ℕ) → List (String × String) → List Credential
store_credentials s id n [] = []
store_credentials s id n ((key, value) ∷ cs) =
    record { integration_id = id; credential_type = key; encrypted_value = s.encrypt n value }
    ∷ store_credentials s id (suc n) cs

abbrev pub is_nonempty {ℓ} : {A : Type ℓ} → List A → Bool
is_nonempty [] = false
is_nonempty (_ ∷ _) = true

-- `create`; a new integration has the status of the schema's default.
unfoldable pub create_integration :
    Secrets
    → Connectors
    → (org : String) → CreateIntegration
    → (id : String) → M IntegrationsDb Integration
create_integration s connectors org dto id = do
  ensure (is_some (find dto.provider connectors)) (bad_request "Unknown provider")
  ensure (is_nonempty dto.credentials) (bad_request "At least one credential is required")
  db ← get
  ensure (not (is_some (find id db.integrations))) (internal "P2002")
  let i : Integration = record {
    organization_id = org;
    provider = dto.provider;
    name = dto.name;
    type = dto.type;
    status = active;
    configuration = some (or_default dto.configuration "{}");
    last_sync_at = none;
  }
  write (λ d. record d { integrations = create id i d.integrations })
  write (λ d. record d { credentials = d.credentials ++ store_credentials s id 0 dto.credentials })
  get_integration org id

-- `update`
unfoldable pub update_integration :
    (org id : String) → (name configuration : Option String) → M IntegrationsDb (Unit {0})
update_integration org id name configuration = do
  _i ← get_integration org id
  write (λ d. record d {
    integrations =
        modify id
          (λ i. record i {
            name = or_default name i.name;
            configuration = or_else configuration i.configuration;
          })
          d.integrations;
  })

abbrev pub is_credential : (id key : String) → Credential → Bool
is_credential id key c = c.integration_id == id && c.credential_type == key

-- The update of the first row of the key
unfoldable pub replace_first : (id key value : String) → List Credential → List Credential
replace_first id key value [] = []
replace_first id key value (c ∷ cs) =
    if is_credential id key c
    then record c { encrypted_value = value } ∷ cs
    else c ∷ replace_first id key value cs

abbrev pub rotated : (id key value : String) → List Credential → List Credential
rotated id key value cs =
    if any (is_credential id key) cs
    then replace_first id key value cs
    else cs ++ record { integration_id = id; credential_type = key; encrypted_value = value } ∷ []

-- `rotateCredential`
unfoldable pub rotate_credential :
    Secrets → (org id key value : String) → M IntegrationsDb (Unit {0})
rotate_credential s org id key value = do
  _i ← get_integration org id
  write (λ d. record d { credentials = rotated id key (s.encrypt 0 value) d.credentials })

abbrev pub set_status : (id : String) → IntegrationStatus → M IntegrationsDb (Unit {0})
set_status id status =
    write (λ d. record d {
      integrations = modify id (λ i. record i { status = status }) d.integrations;
    })

-- `archive`
unfoldable pub archive_integration : (org id : String) → M IntegrationsDb (Unit {0})
archive_integration org id = do _i ← get_integration org id; set_status id inactive

-- `credentials[type] = decrypt(…)`, and a credential that cannot be decrypted is left out
abbrev pub put_decrypted : (key : String) → Result String → Table String → Table String
put_decrypted key (ok v) t = create key v (remove key t)
put_decrypted key (err e) t = t

unfoldable pub decrypt_all : Secrets → (id : String) → List Credential → Table String → Table String
decrypt_all s id [] t = t
decrypt_all s id (c ∷ cs) t =
    let next =
      if c.integration_id == id
      then put_decrypted c.credential_type (s.decrypt c.encrypted_value) t
      else t in
    decrypt_all s id cs next

-- `resolve`
unfoldable pub resolve_integration : Secrets → (org id : String) → M IntegrationsDb ConnectorContext
resolve_integration s org id = do
  i ← get_integration org id
  db ← get
  return (record {
    organization_id = org;
    credentials = decrypt_all s id db.credentials [];
    config = i.configuration;
  })

-- The rows that a `ping` leaves
abbrev pub pinged : (id : String) → (now : ℕ) → ConnectorResult → M IntegrationsDb ConnectorResult
pinged id now r = do
  write (λ d. record d {
    integrations =
        modify id
          (λ i.
            if r.succeeded
            then record i { status = active; last_sync_at = some now }
            else record i { status = error })
          d.integrations;
  })
  return r

abbrev pub test_by :
    Secrets
    → Option (ConnectorContext → ConnectorResult)
    → (org id : String) → (now : ℕ) → M IntegrationsDb ConnectorResult
test_by s none org id now =
    return (record { succeeded = false; error = some "Connector not registered" })
test_by s (some ping) org id now = do ctx ← resolve_integration s org id; pinged id now (ping ctx)

-- `test`
unfoldable pub test_integration :
    Secrets → Connectors → (org id : String) → (now : ℕ) → M IntegrationsDb ConnectorResult
test_integration s connectors org id now = do
  i ← get_integration org id
  test_by s (find i.provider connectors) org id now
