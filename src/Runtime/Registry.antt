-- ===== src/Runtime/Registry.antt =====
-- tools.service.ts: the tools that are built in, and what a call by name runs. A tool's own body
-- and the network are parameters; the row-level security of `tools` (prisma/sql/rls.sql) is that of
-- the connection on the calls of the registry's interface; the properties of a built-in schema but
-- the required ones are left out.
use ai_business_operating_sy.Base.{
  Bool, List, M, Option, String, Table, [], any, concat, create, ensure, equals, find, first, get,
  if◌then◌else◌, internal, is_some, keep, map, none, not, not_found, or_default, or_throw, return,
  some, such, true, write, ◌&&◌, ◌++◌, ◌==◌, ◌>>=◌, ◌>>◌, ◌||◌, ◌∷◌,
}
use ai_business_operating_sy.Runtime.State.{
  RiskLevel, ToolType, Tool, ToolContext, handles, posts, RuntimeDb, perform,
}

pub record Registered : Type 0 where
  pub name : String
  pub risk_level : RiskLevel
  pub required : List String

abbrev pub tool : String → RiskLevel → List String → Registered
tool name risk required = record { name = name; risk_level = risk; required = required }

-- `registerBuiltInTools`
abbrev pub built_in_tools : List Registered
built_in_tools =
    tool "create_task" RiskLevel.low ("title" ∷ [])
    ∷ tool "http_request" RiskLevel.medium ("url" ∷ [])
    ∷ tool "get_current_datetime" RiskLevel.low []
    ∷ []

-- `registerSavTools` and `buildSavTools`
abbrev pub sav_tools : List Registered
sav_tools =
    tool "getOrderByNumber" RiskLevel.low ("orderNumber" ∷ [])
    ∷ tool "getOrdersByCustomerEmail" RiskLevel.low ("email" ∷ [])
    ∷ tool "getOrderStatus" RiskLevel.low ("orderId" ∷ [])
    ∷ tool "getTrackingInfo" RiskLevel.low ("orderId" ∷ [])
    ∷ tool "escalateToHuman" RiskLevel.low ("reason" ∷ [])
    ∷ []

-- `registerIntegrationTools`
abbrev pub integration_tools : List Registered
integration_tools =
    tool "send_email" RiskLevel.medium ("to" ∷ "subject" ∷ "body" ∷ [])
    ∷ tool "create_calendar_event" RiskLevel.medium ("summary" ∷ "start" ∷ "end" ∷ [])
    ∷ tool "list_calendar_events" RiskLevel.low []
    ∷ tool "create_crm_contact" RiskLevel.medium ("email" ∷ [])
    ∷ tool "search_crm_contacts" RiskLevel.low ("query" ∷ [])
    ∷ []

-- `registry`, which no name is in twice
unfoldable pub registry : List Registered
registry = built_in_tools ++ (sav_tools ++ integration_tools)

-- `getRegistered`
unfoldable pub get_registered : String → Option Registered
unfolding registry
get_registered name = first (λ r. r.name == name) registry

-- How the body of a tool or a request ends
pub data Outcome : Type 0 where
  returned raised : String → Outcome

-- The bodies of the registered tools, and `fetch` with `response.json()`
pub record Outside : Type 0 where
  pub handle : (name : String) → (args : String) → ToolContext → Outcome
  pub post : (url : String) → (body : String) → Outcome

abbrev pub is_visible : String → Tool → Bool
is_visible org t = equals t.organization_id org || t.is_built_in

-- `tool.findFirst({ where: { name, OR } })`
abbrev pub find_by_name : (name org : String) → Table Tool → Option Tool
find_by_name name org ts = first (λ t. t.name == name && is_visible org t) (map (λ r. r.1) ts)

-- A missing or empty address
abbrev pub address : Option String → Option String
address none = none
address (some u) = if u == "" then none else some u

module _ (out : Outside) where
  abbrev pub post : String → String → M RuntimeDb Outcome
  post url body = do perform (posts url body); return (out.post url body)

  abbrev pub post_to : Option String → Outcome → (body : String) → M RuntimeDb Outcome
  post_to none missing body = return missing
  post_to (some url) missing body = post url body

  -- `executeWebhookTool`
  abbrev pub execute_webhook_tool : Tool → (args : String) → M RuntimeDb Outcome
  execute_webhook_tool t args = post_to (address t.url) (raised "Webhook URL not configured") args

  -- `executeCustomTool`
  abbrev pub execute_custom_tool : Tool → (args : String) → M RuntimeDb Outcome
  execute_custom_tool t args = post_to (address t.endpoint) (returned args) args

  abbrev pub execute_typed : ToolType → Tool → (args : String) → M RuntimeDb Outcome
  execute_typed ToolType.webhook t args = execute_webhook_tool t args
  execute_typed ToolType.custom t args = execute_custom_tool t args
  execute_typed ToolType.built_in t args = return (raised "Unknown tool type: BUILT_IN")
  execute_typed ToolType.integration t args = return (raised "Unknown tool type: INTEGRATION")

  abbrev pub execute_stored : Option Tool → (name args : String) → M RuntimeDb Outcome
  execute_stored none name args = return (raised (concat "Tool \"" (concat name "\" not found")))
  execute_stored (some t) name args = execute_typed t.type t args

  abbrev pub execute_found :
      Option Registered → Option Tool → (name args : String) → ToolContext → M RuntimeDb Outcome
  execute_found (some r) t name args ctx = do
    perform (handles name args)
    return (out.handle name args ctx)
  execute_found none t name args ctx = execute_stored t name args

  -- `executeTool`; an exception of it is a value here, since its only caller catches it.
  unfoldable pub execute_tool : (name args : String) → ToolContext → M RuntimeDb Outcome
  execute_tool name args ctx = do
    db ← get
    execute_found (get_registered name) (find_by_name name ctx.organization_id db.tools) name args
        ctx

-- What the database knows of a connection: whether its role is exempt from the policies, and the settings
-- `app.is_service` and `app.current_org_id`
pub record Session : Type 0 where
  pub is_exempt : Bool
  pub is_service : Bool
  pub current_org : Option String

-- `organization_id = aibos_current_org()`
abbrev pub is_current : Session → (org : String) → Bool
is_current s org = equals s.current_org org

-- `USING` of the policy `tools_all`, on the column `organization_id`
abbrev pub is_shown : Session → Option String → Bool
is_shown s none = true
is_shown s (some org) = s.is_exempt || (s.is_service || is_current s org)

-- Its `WITH CHECK`
abbrev pub may_insert : Session → (org : String) → Bool
may_insert s org = s.is_exempt || (s.is_service || is_current s org)

abbrev pub is_returned : Session → (org : String) → Tool → Bool
is_returned s org t = is_visible org t && is_shown s t.organization_id

-- `findAll`, in the order of the table
unfoldable pub find_all_tools : Session → (org : String) → M RuntimeDb (List Tool)
find_all_tools s org = do db ← get; return (keep (is_returned s org) (map (λ r. r.1) db.tools))

-- `findOne`
unfoldable pub find_one_tool : Session → (org id : String) → M RuntimeDb Tool
find_one_tool s org id = do
  db ← get
  or_throw (such (is_returned s org) (find id db.tools)) (not_found "Tool not found")

pub record CreateTool : Type 0 where
  pub name : String
  pub description : String
  pub input_schema : Option String
  pub url : Option String
  pub endpoint : Option String
  pub risk_level : Option RiskLevel

-- `create`; `slug` is `dto.slug` or what is made of the name.
unfoldable pub create_tool :
    Session → (org : String) → CreateTool → (slug id : String) → M RuntimeDb Tool
create_tool s org dto slug id = do
  db ← get
  ensure (may_insert s org) (internal "Row-level security policy")
  ensure (not (is_some (find id db.tools))) (internal "Unique constraint failed")
  ensure (not (any (λ r. equals r.1.organization_id org && r.1.slug == slug) db.tools))
      (internal "Unique constraint failed")
  let t : Tool = record {
    organization_id = some org;
    slug = slug;
    name = dto.name;
    description = dto.description;
    type = ToolType.custom;
    input_schema = dto.input_schema;
    url = dto.url;
    endpoint = dto.endpoint;
    risk_level = or_default dto.risk_level RiskLevel.low;
    is_active = true;
    is_built_in = true;
  }
  write (λ d. record d { tools = create id t d.tools })
  return t
