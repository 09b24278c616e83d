-- ===== src/Access/Clients.antt =====
-- legacy_write_authorization.py: the client that a write gives and may name.
use palwakf_agentic_ai_syste.Access.Identifiers.{validate_identifier_again}
use palwakf_agentic_ai_syste.Prelude.{
  String, ◌≡◌, refl, ◌≢◌, ◌⊎◌, inl, inr, Bool, true, false, ◌&&◌, not, Option, none, some, ◌==◌,
  eq_iff, contains, contains→Elem, Elem, Bool-cases, ok, or_raise, >>=-eq-ok, raise_if-eq-ok, arith,
}
use palwakf_agentic_ai_syste.Prelude.Text.{is_falsy}
use palwakf_agentic_ai_syste.Access.{
  invalid_client_identifier, commercial_client_scope_denied, commercial_client_context_required,
  commercial_legacy_write_context_not_supported,
  client_context_not_allowed_outside_commercial_workspace, validate_identifier, ActorPrincipal,
  require_commercial_client_scope, effective_client, check_client, opt_eq, client_context_conflict,
}

-- The client that a write may name, of what is given: in a commercial workspace the given text as an identifier,
-- one of the actor's, elsewhere none.
abbrev pub IsClient : ActorPrincipal → String → Bool → Option String → Option String → Type 0
IsClient actor classification supported given client =
    (classification ≡ "commercial"
      → (text name : String) × (given ≡ some text)
        × (validate_identifier invalid_client_identifier text ≡ ok name)
        × (client ≡ some name)
        × Elem name actor.commercial_client_scopes
        × (supported ≡ true))
    × (classification ≢ "commercial" → (is_falsy given ≡ true) × (client ≡ given))

-- The client that a write gives: the payload's if there is one, which a header then repeats or leaves out, and
-- else the header's.
abbrev pub IsGiven : Option String → Option String → Option String → Type 0
IsGiven payload header given =
    (is_falsy payload ≡ true → given ≡ header)
    × (is_falsy payload ≡ false
        → (given ≡ payload) × ((is_falsy header ≡ true) ⊎ (header ≡ payload)))

opt_eq→eq : (a b : Option String) → opt_eq a b ≡ true → b ≡ a
opt_eq→eq none none h = refl
opt_eq→eq none (some t) h = absurd (ground arith)
opt_eq→eq (some s) none h = absurd (ground arith)
opt_eq→eq (some s) (some t) h = ground (arith, eq_iff s t)

pub effective_client-eq-ok :
    (payload header given : Option String)
    → effective_client payload header ≡ ok given
    → IsGiven payload header given
unfolding effective_client
effective_client-eq-ok payload header given e =
    let (agrees, e1) =
      raise_if-eq-ok
        (not (is_falsy payload) && not (is_falsy header) && not (opt_eq payload header))
        client_context_conflict _ e in
    (
      λ empty. ground arith,
      λ filled. (
        ground arith,
        elim (Bool-cases (is_falsy header)) [
          | inl none_given ↦ inl none_given
          | inr some_given ↦ inr (opt_eq→eq payload header (ground arith))
        ],
      ),
    )

require_commercial_client_scope-eq-ok :
    (actor : ActorPrincipal) (cleaned scoped : String)
    → require_commercial_client_scope actor cleaned ≡ ok scoped
    → validate_identifier invalid_client_identifier cleaned ≡ ok cleaned
    → Elem cleaned actor.commercial_client_scopes
unfolding require_commercial_client_scope
require_commercial_client_scope-eq-ok actor cleaned scoped e v =
    let (_, e1) =
      raise_if-eq-ok (not (contains cleaned actor.commercial_client_scopes))
        commercial_client_scope_denied _ (rw (require_commercial_client_scope, v) at e) in
    contains→Elem cleaned actor.commercial_client_scopes (ground arith)

or_raise-eq-ok :
    (o : Option String) (s : String)
    → or_raise o commercial_client_context_required ≡ ok s
    → o ≡ some s
or_raise-eq-ok none s h = absurd (ground arith)
or_raise-eq-ok (some t) s h = ground arith

pub check_client-eq-ok :
    (actor : ActorPrincipal) (classification : String) (supported : Bool)
    (given client : Option String)
    → check_client actor classification supported given ≡ ok client
    → IsClient actor classification supported given client
unfolding check_client
check_client-eq-ok actor classification supported given client e =
    elim (Bool-cases (classification == "commercial")) [
      | inl h ↦
          let (_, e1) =
            raise_if-eq-ok (is_falsy given) commercial_client_context_required _
              (rw (check_client, h) at e) in
          let (name, g, e2) = >>=-eq-ok (or_raise given commercial_client_context_required) _ e1 in
          let (cleaned, v, e3) =
            >>=-eq-ok (validate_identifier invalid_client_identifier name) _ e2 in
          let (scoped, c, e4) = >>=-eq-ok (require_commercial_client_scope actor cleaned) _ e3 in
          let (kept, e5) =
            raise_if-eq-ok (not supported) commercial_legacy_write_context_not_supported _ e4 in
          let member =
            require_commercial_client_scope-eq-ok actor cleaned scoped c
              (validate_identifier_again invalid_client_identifier name cleaned v) in
          (
            λ _.
                (name, cleaned, or_raise-eq-ok given name g, v, ground arith, member, ground arith),
            λ n. absurd (n (ground (arith, eq_iff classification "commercial"))),
          )
      | inr h ↦ (
        λ q. absurd (ground (arith, eq_iff classification "commercial")),
        λ _.
            let (bare, e1) =
              raise_if-eq-ok (not (is_falsy given))
                client_context_not_allowed_outside_commercial_workspace _
                (rw (check_client, h) at e) in
            (ground arith, ground arith),
      )
    ]
