-- ===== src/Access.antt =====
-- Who may write: the actors' registry (governed_capability_foundation/authz.py), the identifiers of
-- workspace_core/policy.py and the write gate of the older modules (legacy_write_authorization.py), all of
-- backend/src/palwakf_local_agents. `sha256` is the SHA-256 of a text, in capital hexadecimal digits. A set
-- is the list of its items; a JSON file is a value of `JsonFile`.
pub mod Clients
pub mod Identifiers
pub mod Manifests
pub mod Soundness
mod Tests
use palwakf_agentic_ai_syste.Prelude.{
  ℕ, suc, String, ◌≡◌, Bool, true, false, ◌&&◌, ◌||◌, not, Option, none, some, List, [], ◌∷◌, map,
  ◌==◌, if◌then◌else◌, leb, nat_eq, contains, is_empty, is_some, Result, ok, err, ◌>>=◌, ◌>>◌,
  raise_if, or_raise,
}
use palwakf_agentic_ai_syste.Prelude.Text.{is_falsy, strip, is_blank, lower, drop_text}
use text.Mathlib.Text.{starts_with}
use Prim.Native.Char.{Char, code}
use Prim.Native.String.{[] as end, ◌∷◌ as push}

-- `HTTPException` by the code of its detail, and the `ValueError` of an identifier.
pub data AccessError : Type 0 where
  invalid_workspace_identifier invalid_client_identifier invalid_actor_identifier : AccessError
  actor_scope_registry_not_configured actor_scope_registry_invalid : AccessError
  actor_scope_registry_contract_mismatch actor_scope_registry_default_not_deny : AccessError
  actor_scope_registry_actors_invalid authenticated_actor_required : AccessError
  actor_scope_configuration_invalid actor_authentication_failed : AccessError
  workspace_scope_denied workspace_action_denied commercial_client_scope_denied : AccessError
  invalid_declared_actor_identifier declared_actor_mismatch : AccessError
  workspace_manifest_not_configured workspace_manifest_invalid : AccessError
  workspace_manifest_id_mismatch workspace_classification_invalid : AccessError
  client_context_conflict commercial_client_context_required : AccessError
  commercial_legacy_write_context_not_supported : AccessError
  client_context_not_allowed_outside_commercial_workspace : AccessError

-- `SAFE_ID_CHARS`; an actor's identifier may also have a dot.
abbrev pub is_id_char : Bool → Char → Bool
is_id_char dotted c =
    let n = code c in
    (leb 97 n && leb n 122)
    || (leb 48 n && leb n 57)
    || nat_eq n 95
    || nat_eq n 45
    || (dotted && nat_eq n 46)

abbrev pub all_id_chars : Bool → String → Bool
all_id_chars dotted end = true
all_id_chars dotted (push c s) = is_id_char dotted c && all_id_chars dotted s

abbrev pub cleaned_id : Bool → AccessError → String → Result AccessError String
cleaned_id dotted e value = do
  let cleaned = lower (strip value)
  raise_if (is_blank cleaned || not (all_id_chars dotted cleaned)) e
  ok cleaned

-- `validate_identifier`; the error names the label.
unfoldable pub validate_identifier : AccessError → String → Result AccessError String
validate_identifier e value = cleaned_id false e value

-- `validate_actor_identifier`, and `_actor_identifier`, which differs in the error
unfoldable pub validate_actor_identifier : AccessError → String → Result AccessError String
validate_actor_identifier e value = cleaned_id true e value

unfoldable pub validate_all : AccessError → List String → Result AccessError (List String)
validate_all e [] = ok []
validate_all e (value ∷ values) = do
  cleaned ← validate_identifier e value
  rest ← validate_all e values
  ok (cleaned ∷ rest)

-- One object of the registry's `actors`; a missing list is empty, a missing text is `none` or empty.
pub record ActorEntry : Type 0 where
  pub token_sha256 : Option String
  pub actor_id : String
  pub workspace_scopes : List String
  pub allowed_actions : List String
  pub commercial_client_scopes : List String

pub record RegistryDocument : Type 0 where
  pub contract : Option String
  pub default_access : Option String
  pub actors : Option (List ActorEntry)

pub record WorkspaceManifest : Type 0 where
  pub workspace_id : Option String
  pub classification : String

pub data JsonFile (A : Type 0) : Type 0 where
  missing malformed : JsonFile A
  holds : A → JsonFile A

pub record ActorPrincipal : Type 0 where
  pub actor_id : String
  pub workspace_scopes : List String
  pub allowed_actions : List String
  pub commercial_client_scopes : List String

abbrev pub opt_is : Option String → String → Bool
opt_is none s = false
opt_is (some t) s = t == s

abbrev pub read_json : {A : Type 0} → JsonFile A → AccessError → AccessError → Result AccessError A
read_json missing absent invalid = err absent
read_json malformed absent invalid = err invalid
read_json (holds a) absent invalid = ok a

-- `_document`, with the list of its actors
unfoldable pub registry_actors : JsonFile RegistryDocument → Result AccessError (List ActorEntry)
registry_actors file = do
  document ← read_json file actor_scope_registry_not_configured actor_scope_registry_invalid
  raise_if (not (opt_is document.contract "LOCAL_ACTOR_SCOPE_REGISTRY_V1"))
      actor_scope_registry_contract_mismatch
  raise_if (not (opt_is document.default_access "DENY")) actor_scope_registry_default_not_deny
  or_raise document.actors actor_scope_registry_actors_invalid

-- The principal of the entry that the token selects. An identifier that is not valid is the error of the
-- configuration.
unfoldable pub principal_of : ActorEntry → Result AccessError ActorPrincipal
principal_of actor = do
  actor_id ← validate_actor_identifier actor_scope_configuration_invalid actor.actor_id
  workspaces ← validate_all actor_scope_configuration_invalid actor.workspace_scopes
  let actions = map (λ item. lower (strip item)) actor.allowed_actions
  clients ← validate_all actor_scope_configuration_invalid actor.commercial_client_scopes
  raise_if (is_empty workspaces || is_empty actions) actor_scope_configuration_invalid
  ok (record {
    actor_id = actor_id;
    workspace_scopes = workspaces;
    allowed_actions = actions;
    commercial_client_scopes = clients;
  })

-- The loop of `authenticate_bearer`
unfoldable pub find_actor : String → List ActorEntry → Result AccessError ActorPrincipal
find_actor token_hash [] = err actor_authentication_failed
find_actor token_hash (actor ∷ actors) =
    if opt_is actor.token_sha256 token_hash
    then principal_of actor
    else find_actor token_hash actors

-- `authorization[7:].strip()`
unfoldable pub bearer_token : Option String → Result AccessError String
bearer_token none = err authenticated_actor_required
bearer_token (some authorization) = do
  raise_if (is_blank authorization || not (starts_with authorization "Bearer "))
      authenticated_actor_required
  let token = strip (drop_text 7 authorization)
  raise_if (is_blank token) authenticated_actor_required
  ok token

unfoldable pub authenticate_bearer :
    (String → String)
    → JsonFile RegistryDocument
    → Option String
    → Result AccessError ActorPrincipal
authenticate_bearer sha256 file authorization = do
  token ← bearer_token authorization
  actors ← registry_actors file
  find_actor (sha256 token) actors

unfoldable pub require_workspace_scope :
    ActorPrincipal → String → String → Result AccessError (Unit {0})
require_workspace_scope actor workspace_id action = do
  workspace ← validate_identifier invalid_workspace_identifier workspace_id
  raise_if (not (contains workspace actor.workspace_scopes)) workspace_scope_denied
  raise_if (not (contains (lower (strip action)) actor.allowed_actions)) workspace_action_denied
  ok tt

unfoldable pub require_commercial_client_scope : ActorPrincipal → String → Result AccessError String
require_commercial_client_scope actor client_id = do
  client ← validate_identifier invalid_client_identifier client_id
  raise_if (not (contains client actor.commercial_client_scopes)) commercial_client_scope_denied
  ok client

pub record LegacyWriteAuthorizationContext : Type 0 where
  pub actor_id : String
  pub workspace_id : String
  pub action : String
  pub workspace_classification : String
  pub client_id : Option String

pub record WriteRequest : Type 0 where
  pub workspace_id : String
  pub action : String
  pub declared_actor_id : Option String
  pub client_id : Option String
  pub header_client : Option String
  pub commercial_persistence_supported : Bool

-- `_workspace_manifest`, with the classification that it accepts; `manifests` is the manifest's file of each
-- workspace.
unfoldable pub workspace_classification :
    (String → JsonFile WorkspaceManifest) → String → Result AccessError String
workspace_classification manifests workspace_id = do
  document ←
      read_json (manifests workspace_id) workspace_manifest_not_configured
        workspace_manifest_invalid
  raise_if (not (opt_is document.workspace_id workspace_id)) workspace_manifest_id_mismatch
  let classification = lower (strip document.classification)
  raise_if
      (not (contains classification ("government" ∷ "personal" ∷ "research" ∷ "commercial" ∷ [])))
      workspace_classification_invalid
  ok classification

unfoldable pub check_declared_actor : ActorPrincipal → Option String → Result AccessError (Unit {0})
check_declared_actor actor none = ok tt
check_declared_actor actor (some declared) = do
  cleaned ← validate_actor_identifier invalid_declared_actor_identifier declared
  raise_if (not (cleaned == actor.actor_id)) declared_actor_mismatch
  ok tt

abbrev pub stripped : Option String → Option String
stripped none = none
stripped (some text) = some (strip text)

abbrev pub opt_eq : Option String → Option String → Bool
opt_eq none none = true
opt_eq none (some b) = false
opt_eq (some a) none = false
opt_eq (some a) (some b) = a == b

-- The client of the payload or of the header, which conflict when both are given and differ.
unfoldable pub effective_client : Option String → Option String → Result AccessError (Option String)
effective_client payload header = do
  raise_if (not (is_falsy payload) && not (is_falsy header) && not (opt_eq payload header))
      client_context_conflict
  ok (if is_falsy payload then header else payload)

unfoldable pub check_client :
    ActorPrincipal → String → Bool → Option String → Result AccessError (Option String)
check_client actor classification supported client =
    if classification == "commercial"
    then (do
      raise_if (is_falsy client) commercial_client_context_required
      given ← or_raise client commercial_client_context_required
      cleaned ← validate_identifier invalid_client_identifier given
      scoped ← require_commercial_client_scope actor cleaned
      raise_if (not supported) commercial_legacy_write_context_not_supported
      ok (some cleaned))
    else (do
      raise_if (not (is_falsy client)) client_context_not_allowed_outside_commercial_workspace
      ok client)

-- `LegacyWriteAuthorizer.authorize`
unfoldable pub authorize :
    (String → JsonFile WorkspaceManifest)
    → ActorPrincipal
    → WriteRequest
    → Result AccessError LegacyWriteAuthorizationContext
authorize manifests actor request = do
  workspace ← validate_identifier invalid_workspace_identifier request.workspace_id
  let action = lower (strip request.action)
  require_workspace_scope actor workspace action
  check_declared_actor actor request.declared_actor_id
  classification ← workspace_classification manifests workspace
  given ← effective_client (stripped request.client_id) (stripped request.header_client)
  client ← check_client actor classification request.commercial_persistence_supported given
  ok (record {
    actor_id = actor.actor_id;
    workspace_id = workspace;
    action = action;
    workspace_classification = classification;
    client_id = client;
  })
