-- ===== src/Access/Tests.antt =====
-- An actor of the registry, a token and a commercial write at concrete inputs.
use palwakf_agentic_ai_syste.Prelude.Text.{strip, rstrip, lstrip, lower, is_space}
use palwakf_agentic_ai_syste.Prelude.{
  contains, String, ◌≡◌, refl, ◌↔◌, ◌≢◌, true, none, some, List, [], ◌∷◌, Elem, ok, err,
}
use palwakf_agentic_ai_syste.Access.{
  workspace_classification, validate_all, validate_actor_identifier, require_workspace_scope,
  require_commercial_client_scope, registry_actors, find_actor, effective_client,
  check_declared_actor, check_client, invalid_workspace_identifier, validate_identifier, ActorEntry,
  RegistryDocument, WorkspaceManifest, JsonFile, holds, ActorPrincipal, bearer_token, principal_of,
  authenticate_bearer, LegacyWriteAuthorizationContext, WriteRequest, authorize,
  client_context_conflict,
}
use palwakf_agentic_ai_syste.Access.Identifiers.{IsName, validate_identifier_iff}
use palwakf_agentic_ai_syste.Access.Soundness.{
  IsRegistry, authenticate_bearer_sound, IsGranted, authorize_sound,
}

abbrev entry : ActorEntry
entry = record {
  token_sha256 = some "secret";
  actor_id = "Amal.1";
  workspace_scopes = " W-1 " ∷ [];
  allowed_actions = "Write" ∷ [];
  commercial_client_scopes = "c1" ∷ [];
}

abbrev registry : JsonFile RegistryDocument
registry = holds (record {
  contract = some "LOCAL_ACTOR_SCOPE_REGISTRY_V1";
  default_access = some "DENY";
  actors = some (entry ∷ []);
})

abbrev digest : String → String
digest text = text

abbrev principal : ActorPrincipal
principal = record {
  actor_id = "amal.1";
  workspace_scopes = "w-1" ∷ [];
  allowed_actions = "write" ∷ [];
  commercial_client_scopes = "c1" ∷ [];
}

abbrev manifests : String → JsonFile WorkspaceManifest
manifests workspace = holds (record { workspace_id = some "w-1"; classification = "Commercial" })

abbrev write : WriteRequest
write = record {
  workspace_id = "W-1";
  action = "write ";
  declared_actor_id = some "AMAL.1";
  client_id = some "C1";
  header_client = none;
  commercial_persistence_supported = true;
}

abbrev granted : LegacyWriteAuthorizationContext
granted = record {
  actor_id = "amal.1";
  workspace_id = "w-1";
  action = "write";
  workspace_classification = "commercial";
  client_id = some "c1";
}

authenticated : authenticate_bearer digest registry (some "Bearer  secret") ≡ ok principal
unfolding authenticate_bearer bearer_token rstrip lstrip is_space registry_actors find_actor
    principal_of validate_actor_identifier lower validate_all validate_identifier
authenticated = refl

authorized : authorize manifests principal write ≡ ok granted
unfolding authorize validate_identifier lower rstrip lstrip is_space require_workspace_scope
    contains check_declared_actor validate_actor_identifier workspace_classification
    effective_client check_client require_commercial_client_scope
authorized = refl

test_conflict :
    authorize manifests principal (record write { header_client = some "c2" })
    ≡ err client_context_conflict
unfolding authorize validate_identifier lower rstrip lstrip is_space require_workspace_scope
    contains check_declared_actor validate_actor_identifier workspace_classification
    effective_client
test_conflict = refl

test_identifier : validate_identifier invalid_workspace_identifier " W-1 " ≡ ok "w-1"
unfolding validate_identifier lower rstrip lstrip is_space
test_identifier = refl

abbrev identifier : String
identifier = "w-1"

validate_identifier_iff_example :
    (validate_identifier invalid_workspace_identifier " W-1 " ≡ ok identifier)
    ↔ ((identifier ≡ lower (strip " W-1 ")) × (identifier ≢ "") × IsName identifier)
validate_identifier_iff_example =
    validate_identifier_iff invalid_workspace_identifier " W-1 " identifier

authenticate_bearer_sound_example :
    (token : String) × (actors : List ActorEntry) × (found : ActorEntry) × (bearer_token
        (some "Bearer  secret")
      ≡ ok token)
    × IsRegistry registry actors
    × Elem found actors
    × (found.token_sha256 ≡ some (digest token))
    × (principal_of found ≡ ok principal)
    × (principal.workspace_scopes ≢ [])
    × (principal.allowed_actions ≢ [])
authenticate_bearer_sound_example =
    authenticate_bearer_sound digest registry (some "Bearer  secret") principal authenticated

authorize_sound_example : IsGranted manifests principal write granted
authorize_sound_example = authorize_sound manifests principal write granted authorized
