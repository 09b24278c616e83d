-- ===== src/ChangeControl/Implementations/Checked.antt =====
-- What the checks of `_apply_implementation` establish.
use palwakf_agentic_ai_syste.Prelude.{
  String, ◌≡◌, refl, sym, ap, ◌∙◌, false, not, Option, none, some, List, ◌==◌, ok, arith, eq_iff,
  eq_refl, >>=-eq-ok, raise_if-eq-ok, or_raise,
}
use palwakf_agentic_ai_syste.Prelude.Dict.{Dict, get, put, get-put}
use palwakf_agentic_ai_syste.ChangeControl.Schema.{
  ChangeError, accepted_proposal_required, implementation_not_found,
  implementation_not_ready_for_apply, apply_token_mismatch, implementation_proposal_hash_mismatch,
  implementation_preimage_stale, EntityStatus, human_review, accepted, returned, rejected, Change,
  Proposal, ImplementationStatus, approved_for_apply, applied_awaiting_review, rolled_back,
  accepted_implementation, Implementation, Db, Host, sha256_text,
}
use palwakf_agentic_ai_syste.ChangeControl.Proposals.{is_accepted}
use palwakf_agentic_ai_syste.ChangeControl.Implementations.{
  locate_changes, is_approved_for_apply, accepted_proposal, check_apply,
}
use palwakf_agentic_ai_syste.ChangeControl.Implementations.Found.{ok_inj}

-- What the checks of `_apply_implementation` establish.
pub record IsChecked (h : Host) (implementation_id apply_token : String) (db : Db)
    (implementation : Implementation) (proposal : Proposal) (targets : List (String × Change))
    : Type 0 where
  pub found : get implementation_id db.implementations ≡ some implementation
  pub approved : implementation.status ≡ approved_for_apply
  pub token : sha256_text h apply_token ≡ implementation.apply_token_sha256
  pub proposed : get implementation.proposal_id db.proposals ≡ some proposal
  pub is_accepted_ : proposal.status ≡ accepted
  pub same_proposal : proposal.proposal_sha256 ≡ implementation.proposal_sha256
  pub located :
      locate_changes h
        (λ c. c.preimage_sha256)
        implementation_preimage_stale
        db.disk.files
        proposal.changes
      ≡ ok targets

pub or_raise-eq-ok :
    {A : Type 0} (found : Option A) (e : ChangeError) (a : A)
    → or_raise found e ≡ ok a
    → found ≡ some a
or_raise-eq-ok none e a h = absurd (ground arith)
or_raise-eq-ok (some b) e a h = ground arith

pub is_accepted-eq : (status : EntityStatus) → not (is_accepted status) ≡ false → status ≡ accepted
is_accepted-eq human_review e = absurd (ground arith)
is_accepted-eq accepted e = refl
is_accepted-eq returned e = absurd (ground arith)
is_accepted-eq rejected e = absurd (ground arith)

is_approved-eq :
    (status : ImplementationStatus)
    → not (is_approved_for_apply status) ≡ false
    → status ≡ approved_for_apply
is_approved-eq approved_for_apply e = refl
is_approved-eq applied_awaiting_review e = absurd (ground arith)
is_approved-eq rolled_back e = absurd (ground arith)
is_approved-eq accepted_implementation e = absurd (ground arith)

accepted_at :
    (proposal_id : String) (db : Db) (found proposal : Proposal)
    → found ≡ proposal
    → get proposal_id db.proposals ≡ some found
    → found.status ≡ accepted
    → (get proposal_id db.proposals ≡ some proposal) × (proposal.status ≡ accepted)
accepted_at proposal_id db found proposal same g s =
    (g ∙ ap (λ p. some p) same, ap (λ p. p.status) (sym same) ∙ s)

IsChecked-eq :
    (h : Host) (implementation_id apply_token : String) (db : Db) (i j : Implementation)
    (p q : Proposal) (ts us : List (String × Change))
    → i ≡ j
    → p ≡ q
    → ts ≡ us
    → IsChecked h implementation_id apply_token db i p ts
    → IsChecked h implementation_id apply_token db j q us
IsChecked-eq h implementation_id apply_token db i j p q ts us a b c k =
    rw (sym a) (rw (sym b) (rw (sym c) k))

pub put-found : {V : Type 0} (k : String) (v : V) (d : Dict V) → get k (put k v d) ≡ some v
put-found k v d = get-put k k v d ∙ rw (eq_refl k) refl

pub some_inj : (x y : Proposal) → ◌≡◌ {A = Option Proposal} (some x) (some y) → x ≡ y
some_inj x y e = ground arith

module _ (h : Host) where
  accepted_proposal-eq-ok :
      (proposal_id : String) (db : Db) (proposal : Proposal)
      → accepted_proposal proposal_id db ≡ ok proposal
      → (get proposal_id db.proposals ≡ some proposal) × (proposal.status ≡ accepted)
  unfolding accepted_proposal
  accepted_proposal-eq-ok proposal_id db proposal e =
      let (found, f, e1) =
        >>=-eq-ok (or_raise (get proposal_id db.proposals) accepted_proposal_required) _ e in
      let (yes_, e2) =
        raise_if-eq-ok (not (is_accepted found.status)) accepted_proposal_required _ e1 in
      accepted_at proposal_id db found proposal (ok_inj _ _ e2) (or_raise-eq-ok _ _ found f)
        (is_accepted-eq found.status yes_)

  pub check_apply-eq-ok :
      (implementation_id apply_token : String) (db : Db) (implementation : Implementation)
      (proposal : Proposal) (targets : List (String × Change))
      → check_apply h implementation_id apply_token db ≡ ok (implementation, proposal, targets)
      → IsChecked h implementation_id apply_token db implementation proposal targets
  unfolding check_apply
  check_apply-eq-ok implementation_id apply_token db implementation proposal targets e =
      let (i, f, e1) =
        >>=-eq-ok (or_raise (get implementation_id db.implementations) implementation_not_found) _
          e in
      let (approved, e2) =
        raise_if-eq-ok (not (is_approved_for_apply i.status)) implementation_not_ready_for_apply _
          e1 in
      let (token, e3) =
        raise_if-eq-ok (not (sha256_text h apply_token == i.apply_token_sha256))
          apply_token_mismatch _ e2 in
      let (p, a, e4) = >>=-eq-ok (accepted_proposal i.proposal_id db) _ e3 in
      let (same, e5) =
        raise_if-eq-ok (not (p.proposal_sha256 == i.proposal_sha256))
          implementation_proposal_hash_mismatch _ e4 in
      let (ts, l, e6) =
        >>=-eq-ok
          (locate_changes h (λ c. c.preimage_sha256) implementation_preimage_stale db.disk.files
            p.changes)
          _ e5 in
      let (proposed, status) = accepted_proposal-eq-ok i.proposal_id db p a in
      let made = ok_inj _ _ e6 in
      IsChecked-eq h implementation_id apply_token db i implementation p proposal ts targets
        (ap (λ t. t.0) made) (ap (λ t. t.1) made) (ap (λ t. t.2) made)
        (record {
          found = or_raise-eq-ok _ _ i f;
          approved = is_approved-eq i.status approved;
          token = ground (arith, eq_iff (sha256_text h apply_token) i.apply_token_sha256);
          proposed = proposed;
          is_accepted_ = status;
          same_proposal = ground (arith, eq_iff p.proposal_sha256 i.proposal_sha256);
          located = l;
        })
