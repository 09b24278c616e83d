-- ===== src/Access/Soundness.antt =====
-- What a bearer token and a write request must be for the gates to let them pass.
use palwakf_agentic_ai_syste.Access.Clients.{
  IsClient, IsGiven, effective_client-eq-ok, check_client-eq-ok,
}
use palwakf_agentic_ai_syste.Access.Manifests.{
  opt_is→eq, IsClassified, workspace_classification-eq-ok,
}
use palwakf_agentic_ai_syste.Access.Identifiers.{validate_identifier_again}
use palwakf_agentic_ai_syste.Prelude.{
  String, ◌≡◌, refl, ◌≢◌, inl, inr, ◌||◌, not, Option, none, some, List, [], ◌∷◌, map, ◌==◌, eq_iff,
  contains, contains→Elem, Elem, is_empty, Bool-cases, ok, or_raise, >>=-eq-ok, raise_if-eq-ok,
  arith,
}
use palwakf_agentic_ai_syste.Prelude.Text.{strip, lower}
use palwakf_agentic_ai_syste.Access.{
  invalid_workspace_identifier, invalid_declared_actor_identifier,
  actor_scope_registry_contract_mismatch, actor_scope_registry_default_not_deny,
  actor_scope_registry_actors_invalid, actor_scope_configuration_invalid, workspace_scope_denied,
  workspace_action_denied, declared_actor_mismatch, validate_identifier, validate_actor_identifier,
  validate_all, ActorEntry, RegistryDocument, WorkspaceManifest, JsonFile, missing, malformed,
  holds, ActorPrincipal, opt_is, registry_actors, principal_of, find_actor, bearer_token,
  authenticate_bearer, require_workspace_scope, LegacyWriteAuthorizationContext, WriteRequest,
  workspace_classification, check_declared_actor, stripped, effective_client, check_client,
  authorize,
}

-- The registry that was read denies by default and lists the actors.
abbrev pub IsRegistry : JsonFile RegistryDocument → List ActorEntry → Type 0
IsRegistry file actors =
    (document : RegistryDocument) × (file ≡ holds document)
    × (document.default_access ≡ some "DENY")
    × (document.actors ≡ some actors)

registry_actors-eq-ok :
    (file : JsonFile RegistryDocument) (actors : List ActorEntry)
    → registry_actors file ≡ ok actors
    → IsRegistry file actors
unfolding registry_actors
registry_actors-eq-ok missing actors e = absurd (ground arith)
registry_actors-eq-ok malformed actors e = absurd (ground arith)
registry_actors-eq-ok (holds document) actors e =
    let (_, e1) =
      raise_if-eq-ok (not (opt_is document.contract "LOCAL_ACTOR_SCOPE_REGISTRY_V1"))
        actor_scope_registry_contract_mismatch _ e in
    let (deny, e2) =
      raise_if-eq-ok (not (opt_is document.default_access "DENY"))
        actor_scope_registry_default_not_deny _ e1 in
    (
      document,
      refl,
      opt_is→eq document.default_access "DENY" (ground arith),
      listed document.actors e2,
    )
  where
    listed :
        (o : Option (List ActorEntry))
        → or_raise o actor_scope_registry_actors_invalid ≡ ok actors
        → o ≡ some actors
    listed none h = absurd (ground arith)
    listed (some found) h = ground arith

find_actor-eq-ok :
    (token_hash : String) (actors : List ActorEntry) (principal : ActorPrincipal)
    → find_actor token_hash actors ≡ ok principal
    → (entry : ActorEntry) × Elem entry actors
      × (entry.token_sha256 ≡ some token_hash)
      × (principal_of entry ≡ ok principal)
unfolding find_actor
find_actor-eq-ok token_hash [] principal e = absurd (ground arith)
find_actor-eq-ok token_hash (actor ∷ actors) principal e =
    elim (Bool-cases (opt_is actor.token_sha256 token_hash)) [
      | inl h ↦ (actor, inl refl, opt_is→eq actor.token_sha256 token_hash h, ground arith)
      | inr h ↦
          let (entry, m, t, p) = find_actor-eq-ok token_hash actors principal (ground arith) in
          (entry, inr m, t, p)
    ]

principal_of-scoped :
    (entry : ActorEntry) (principal : ActorPrincipal)
    → principal_of entry ≡ ok principal
    → (principal.workspace_scopes ≢ []) × (principal.allowed_actions ≢ [])
unfolding principal_of
principal_of-scoped entry principal e =
    let e0 = actor_scope_configuration_invalid in
    let (actor_id, _, e1) = >>=-eq-ok (validate_actor_identifier e0 entry.actor_id) _ e in
    let (workspaces, _, e2) = >>=-eq-ok (validate_all e0 entry.workspace_scopes) _ e1 in
    let (clients, _, e3) = >>=-eq-ok (validate_all e0 entry.commercial_client_scopes) _ e2 in
    let actions = map (λ item. lower (strip item)) entry.allowed_actions in
    let (filled, e4) = raise_if-eq-ok (is_empty workspaces || is_empty actions) e0 _ e3 in
    let w : principal.workspace_scopes ≡ workspaces = ground arith in
    let a : principal.allowed_actions ≡ actions = ground arith in
    (rw w (λ h. absurd (ground arith)), rw a (λ h. absurd (ground arith)))

-- An authenticated principal is that of a registered actor: the registry denies by default, the actor's entry
-- holds the digest of the token that was sent, and the principal has a workspace and an action.
pub authenticate_bearer_sound :
    (sha256 : String → String) (file : JsonFile RegistryDocument) (authorization : Option String)
    (principal : ActorPrincipal)
    → authenticate_bearer sha256 file authorization ≡ ok principal
    → (token : String) × (actors : List ActorEntry) × (entry : ActorEntry) × (bearer_token
          authorization
        ≡ ok token)
      × IsRegistry file actors
      × Elem entry actors
      × (entry.token_sha256 ≡ some (sha256 token))
      × (principal_of entry ≡ ok principal)
      × (principal.workspace_scopes ≢ [])
      × (principal.allowed_actions ≢ [])
unfolding authenticate_bearer
authenticate_bearer_sound sha256 file authorization principal e =
    let (token, t, e1) = >>=-eq-ok (bearer_token authorization) _ e in
    let (actors, r, e2) = >>=-eq-ok (registry_actors file) _ e1 in
    let (entry, m, d, p) = find_actor-eq-ok (sha256 token) actors principal e2 in
    let (w, a) = principal_of-scoped entry principal p in
    (token, actors, entry, t, registry_actors-eq-ok file actors r, m, d, p, w, a)

require_workspace_scope-eq-ok :
    (actor : ActorPrincipal) (workspace_id action : String)
    → require_workspace_scope actor workspace_id action ≡ ok tt
    → (workspace : String) × (validate_identifier invalid_workspace_identifier workspace_id
        ≡ ok workspace)
      × Elem workspace actor.workspace_scopes
      × Elem (lower (strip action)) actor.allowed_actions
unfolding require_workspace_scope
require_workspace_scope-eq-ok actor workspace_id action e =
    let (workspace, v, e1) =
      >>=-eq-ok (validate_identifier invalid_workspace_identifier workspace_id) _ e in
    let (scoped, e2) =
      raise_if-eq-ok (not (contains workspace actor.workspace_scopes)) workspace_scope_denied _
        e1 in
    let (permitted, _) =
      raise_if-eq-ok (not (contains (lower (strip action)) actor.allowed_actions))
        workspace_action_denied _ e2 in
    (
      workspace,
      v,
      contains→Elem workspace actor.workspace_scopes (ground arith),
      contains→Elem (lower (strip action)) actor.allowed_actions (ground arith),
    )

-- What a write that is authorized is authorized for: the workspace and the action that it asks for.
pub record IsGranted (manifests : String → JsonFile WorkspaceManifest) (actor : ActorPrincipal)
    (request : WriteRequest) (context : LegacyWriteAuthorizationContext) : Type 0 where
  pub acting : context.actor_id ≡ actor.actor_id
  pub named :
      validate_identifier invalid_workspace_identifier request.workspace_id
      ≡ ok context.workspace_id
  pub asked : context.action ≡ lower (strip request.action)
  pub classified :
      IsClassified
        (manifests context.workspace_id)
        context.workspace_id
        context.workspace_classification
  pub scoped : Elem context.workspace_id actor.workspace_scopes
  pub permitted : Elem (lower (strip context.action)) actor.allowed_actions
  pub declared :
      (name : String)
      → request.declared_actor_id ≡ some name
      → validate_actor_identifier invalid_declared_actor_identifier name ≡ ok actor.actor_id
  pub client :
      (given : Option String) × IsGiven
        (stripped request.client_id)
        (stripped request.header_client)
        given
      × IsClient actor context.workspace_classification request.commercial_persistence_supported
          given context.client_id

check_declared_actor-eq-ok :
    (actor : ActorPrincipal) (declared : Option String)
    → check_declared_actor actor declared ≡ ok tt
    → (name : String) → declared ≡ some name
    → validate_actor_identifier invalid_declared_actor_identifier name ≡ ok actor.actor_id
unfolding check_declared_actor
check_declared_actor-eq-ok actor none e name h = absurd (ground arith)
check_declared_actor-eq-ok actor (some given) e name h =
    let (cleaned, v, e1) =
      >>=-eq-ok (validate_actor_identifier invalid_declared_actor_identifier given) _ e in
    let (same, _) = raise_if-eq-ok (not (cleaned == actor.actor_id)) declared_actor_mismatch _ e1 in
    let named : cleaned ≡ actor.actor_id = ground (arith, eq_iff cleaned actor.actor_id) in
    let asked : given ≡ name = ground arith in rw⁻¹ (named, asked) v

-- A write that is authorized is the actor's own. Its context has the workspace and the action that the request
-- asks for, which are of the actor's scopes, and the classification of the workspace's manifest. In a commercial
-- workspace the context has the client that the payload or the header gives, without conflict, which is of the
-- actor's scopes, and the module keeps the client; elsewhere none is given.
pub authorize_sound :
    (manifests : String → JsonFile WorkspaceManifest) (actor : ActorPrincipal)
    (request : WriteRequest) (context : LegacyWriteAuthorizationContext)
    → authorize manifests actor request ≡ ok context
    → IsGranted manifests actor request context
unfolding authorize
authorize_sound manifests actor request context e =
    let action = lower (strip request.action) in
    let supported = request.commercial_persistence_supported in
    let (workspace, v, e1) =
      >>=-eq-ok (validate_identifier invalid_workspace_identifier request.workspace_id) _ e in
    let (_, s, e2) = >>=-eq-ok (require_workspace_scope actor workspace action) _ e1 in
    let (_, d, e3) = >>=-eq-ok (check_declared_actor actor request.declared_actor_id) _ e2 in
    let (classification, f, e4) = >>=-eq-ok (workspace_classification manifests workspace) _ e3 in
    let (given, g, e5) =
      >>=-eq-ok (effective_client (stripped request.client_id) (stripped request.header_client)) _
        e4 in
    let (client, c, e6) = >>=-eq-ok (check_client actor classification supported given) _ e5 in
    let (scope, w, m, p) = require_workspace_scope-eq-ok actor workspace action s in
    let again =
      validate_identifier_again invalid_workspace_identifier request.workspace_id workspace v in
    let same : scope ≡ context.workspace_id = ground arith in
    let placed : workspace ≡ context.workspace_id = ground arith in
    let acted : action ≡ context.action = ground arith in
    let classified : classification ≡ context.workspace_classification = ground arith in
    let named : client ≡ context.client_id = ground arith in
    record {
      acting = ground arith;
      named = rw⁻¹ placed v;
      asked = ground arith;
      classified =
          rw⁻¹ (placed, classified)
            (workspace_classification-eq-ok manifests workspace classification f);
      scoped = rw⁻¹ same m;
      permitted = rw⁻¹ acted p;
      declared = check_declared_actor-eq-ok actor request.declared_actor_id d;
      client =
          rw⁻¹ (classified, named)
            (
              given,
              effective_client-eq-ok (stripped request.client_id) (stripped request.header_client)
                  given g,
              check_client-eq-ok actor classification supported given client c,
            );
    }
