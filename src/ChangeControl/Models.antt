-- ===== src/ChangeControl/Models.antt =====
-- The registry of local models: `_probe_models`, `_approve_model` and `_approved_model`.
use palwakf_agentic_ai_syste.Prelude.{
  String, Bool, true, false, ◌&&◌, ◌||◌, not, Option, none, some, List, [], ◌∷◌, ◌==◌,
  if◌then◌else◌, Result, ok, ◌>>=◌, ◌>>◌, raise_if, or_raise,
}
use palwakf_agentic_ai_syste.Prelude.Dict.{Dict, get, put}
use palwakf_agentic_ai_syste.Prelude.Text.{is_falsy}
use palwakf_agentic_ai_syste.ChangeControl.Schema.{
  ChangeError, unknown_model_id, model_not_available_for_approval, model_not_planning_approved,
  model_digest_revalidation_required, ModelState, registered, available, planning_approved, Model,
  Db,
}

-- One entry of `response["models"]`.
pub record ListedModel : Type 0 where
  pub name : Option String
  pub model : Option String
  pub digest : Option String

-- `item.get("name") or item.get("model")`
unfoldable pub listed_name : ListedModel → Option String
listed_name entry = if is_falsy entry.name then entry.model else entry.name

-- The dictionary `available`
unfoldable pub listed : List ListedModel → Dict ListedModel → Dict ListedModel
listed [] found = found
listed (entry ∷ entries) found = listed entries (elim (listed_name entry) [
  | none ↦ found
  | some name ↦ if name == "" then found else put name entry found
])

-- `==` of two digests
abbrev pub digest_eq : Option String → Option String → Bool
digest_eq none none = true
digest_eq none (some b) = false
digest_eq (some a) none = false
digest_eq (some a) (some b) = a == b

-- The loop of `_probe_models` on one record.
unfoldable pub probe_model : Option ListedModel → Model → Model
probe_model none record_ = record record_ { digest = none; state = registered }
probe_model (some entry) record_ = record record_ {
  digest = entry.digest;
  state =
      if digest_eq record_.approved_digest entry.digest && not (is_falsy entry.digest)
      then planning_approved
      else available;
}

unfoldable pub probe_all : Dict ListedModel → Dict Model → Dict Model
probe_all found [] = []
probe_all found ((model_id, record_) ∷ models) =
    (model_id, probe_model (get model_id found) record_) ∷ probe_all found models

-- `_probe_models`, with what `/api/tags` answers
unfoldable pub probe_models : List ListedModel → Db → Db
probe_models response db = record db { models = probe_all (listed response []) db.models }

abbrev pub is_available : ModelState → Bool
is_available registered = false
is_available available = true
is_available planning_approved = false

abbrev pub is_planning_approved : ModelState → Bool
is_planning_approved registered = false
is_planning_approved available = false
is_planning_approved planning_approved = true

-- `_approve_model`
unfoldable pub approve_model : String → String → String → Db → Result ChangeError Db
approve_model model_id approval_reference approved_by db = do
  model ← or_raise (get model_id db.models) unknown_model_id
  raise_if (not (is_available model.state) || is_falsy model.digest)
      model_not_available_for_approval
  let approved = record model {
    state = planning_approved;
    approved_digest = model.digest;
    approval_reference = some approval_reference;
    approved_by = some approved_by;
  }
  ok (record db { models = put model_id approved db.models })

-- `_approved_model`, and the digest of its result
unfoldable pub approved_model : String → Db → Result ChangeError String
approved_model model_id db = do
  model ← or_raise (get model_id db.models) unknown_model_id
  raise_if (not (is_planning_approved model.state)) model_not_planning_approved
  raise_if (is_falsy model.digest || not (digest_eq model.digest model.approved_digest))
      model_digest_revalidation_required
  or_raise model.digest model_digest_revalidation_required
