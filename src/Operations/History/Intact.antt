-- ===== src/Operations/History/Intact.antt =====
-- `_record_transition` keeps the hash chain of every task's events.
use palwakf_agentic_ai_syste.Prelude.{
  ℕ, ◌<◌, String, ◌≡◌, refl, ap, ◌∙◌, inl, inr, Bool, true, Option, none, some, List, [], ◌∷◌, ◌++◌,
  ◌==◌, if◌then◌else◌, ltb, arith, eq_iff, eq_refl, All, Bool-cases,
}
use palwakf_agentic_ai_syste.Operations.Schema.{TransitionRow, Digests}
use palwakf_agentic_ai_syste.Operations.Tasks.{latest}
use palwakf_agentic_ai_syste.Operations.Audit.{opt_eq}
use palwakf_agentic_ai_syste.Operations.Audit.Chain.{opt_eq_refl}
use mathlib.Core.Path.{subst}
use palwakf_agentic_ai_syste.Operations.History.{
  insert_by, order_by, events_of, event_failures, check_events,
}

abbrev time_of : TransitionRow → ℕ
time_of row = row.content.occurred_at

-- Each event is later than those before it.
abbrev pub IsChronological : List TransitionRow → Type 0
IsChronological [] = Unit
IsChronological (row ∷ rows) = All (λ e. time_of row < time_of e) rows × IsChronological rows

pub order_by-IsChronological :
    (tied : Bool) (rows : List TransitionRow)
    → IsChronological rows
    → order_by time_of tied rows ≡ rows
unfolding order_by insert_by
order_by-IsChronological tied [] c = refl
order_by-IsChronological tied (row ∷ []) c = refl
order_by-IsChronological tied (row ∷ next ∷ rows) ((first, _), c) =
    rw (order_by-IsChronological tied (next ∷ rows) c) (ground (arith, first))

-- The last event.
abbrev last_event : Option TransitionRow → List TransitionRow → Option TransitionRow
last_event best [] = best
last_event best (row ∷ rows) = last_event (some row) rows

-- `best` is earlier than every event.
abbrev IsBefore : Option TransitionRow → List TransitionRow → Type 0
IsBefore none rows = Unit
IsBefore (some best) rows = All (λ e. time_of best < time_of e) rows

events_of-own :
    (task_id : String) (row : TransitionRow) (rows : List TransitionRow)
    → (row.content.task_id == task_id) ≡ true
    → IsChronological (events_of task_id (row ∷ rows))
    → IsChronological (row ∷ events_of task_id rows)
unfolding events_of
events_of-own task_id row rows own c = rw own at c

before-own :
    (task_id : String) (best row : TransitionRow) (rows : List TransitionRow)
    → (row.content.task_id == task_id) ≡ true
    → All (λ e. time_of best < time_of e) (events_of task_id (row ∷ rows))
    → time_of best < time_of row
unfolding events_of
before-own task_id best row rows own b = (rw own at b).0

latest-eq-last_event :
    (later : Bool) (task_id : String) (best : Option TransitionRow) (rows : List TransitionRow)
    → IsChronological (events_of task_id rows)
    → IsBefore best (events_of task_id rows)
    → latest later task_id best rows ≡ last_event best (events_of task_id rows)
unfolding latest events_of
latest-eq-last_event later task_id best [] c b = refl
latest-eq-last_event later task_id none (row ∷ rows) c b =
    elim (Bool-cases (row.content.task_id == task_id)) [
      | inl own ↦
          let (first, rest) = events_of-own task_id row rows own c in
          rw own (latest-eq-last_event later task_id (some row) rows rest first)
      | inr other ↦ rw other (latest-eq-last_event later task_id none rows (rw other at c) tt)
    ]
latest-eq-last_event later task_id (some best) (row ∷ rows) c b =
    elim (Bool-cases (row.content.task_id == task_id)) [
      | inl own ↦
          let (first, rest) = events_of-own task_id row rows own c in
          let earlier : time_of best < time_of row = (before-own task_id best row rows own b) in
          let newer : ltb (time_of best) (time_of row) ≡ true = ground (arith, earlier) in
          rw own (rw newer (latest-eq-last_event later task_id (some row) rows rest first))
      | inr other ↦
          rw other
            (latest-eq-last_event later task_id (some best) rows (rw other at c) (rw other at b))
    ]

-- The hash that a chain ends with.
abbrev end_hash : Option String → List TransitionRow → Option String
end_hash previous [] = previous
end_hash previous (row ∷ rows) = end_hash (some row.event_hash) rows

abbrev pub hash_of : Option TransitionRow → Option String
hash_of none = none
hash_of (some row) = some row.event_hash

last_event-end_hash :
    (best : Option TransitionRow) (rows : List TransitionRow)
    → hash_of (last_event best rows) ≡ end_hash (hash_of best) rows
last_event-end_hash best [] = refl
last_event-end_hash best (row ∷ rows) = last_event-end_hash (some row) rows

events_of-append :
    (task_id : String) (rows : List TransitionRow) (event : TransitionRow)
    → events_of task_id (rows ++ event ∷ []) ≡ (
        if event.content.task_id == task_id
        then events_of task_id rows ++ event ∷ []
        else events_of task_id rows)
unfolding events_of
events_of-append task_id [] event = refl
events_of-append task_id (row ∷ rows) event = ground (arith, events_of-append task_id rows event)

All-before-append :
    (first event : TransitionRow) (rows : List TransitionRow)
    → All (λ e. time_of first < time_of e) rows
    → time_of first < time_of event
    → All (λ e. time_of first < time_of e) (rows ++ event ∷ [])
All-before-append first event [] a t = (t, tt)
All-before-append first event (row ∷ rows) (p, a) t = (p, All-before-append first event rows a t)

IsChronological-append :
    (rows : List TransitionRow) (event : TransitionRow)
    → IsChronological rows
    → All (λ e. time_of e < time_of event) rows
    → IsChronological (rows ++ event ∷ [])
IsChronological-append [] event c a = (tt, tt)
IsChronological-append (row ∷ rows) event (first, c) (p, a) =
    (All-before-append row event rows first p, IsChronological-append rows event c a)

module _ (h : Digests) where
  -- Each event carries the hash of the one before it, and the hash of its own content.
  abbrev pub IsLinked : Option String → List TransitionRow → Type 0
  IsLinked previous [] = Unit
  IsLinked previous (row ∷ rows) =
      (row.content.previous_hash ≡ previous)
      × (row.event_hash ≡ h.transition_hash row.content)
      × IsLinked (some row.event_hash) rows

  IsLinked-append :
      (previous : Option String) (rows : List TransitionRow) (event : TransitionRow)
      → IsLinked previous rows
      → event.content.previous_hash ≡ end_hash previous rows
      → event.event_hash ≡ h.transition_hash event.content
      → IsLinked previous (rows ++ event ∷ [])
  IsLinked-append previous [] event l p e = (p, e, tt)
  IsLinked-append previous (row ∷ rows) event (a, b, l) p e =
      (a, b, IsLinked-append (some row.event_hash) rows event l p e)

  pub check_events-IsLinked :
      (previous : Option String) (rows : List TransitionRow)
      → IsLinked previous rows
      → (check_events h previous rows).0 ≡ []
  unfolding check_events event_failures
  check_events-IsLinked previous [] l = refl
  check_events-IsLinked previous (row ∷ rows) (p, e, l) =
      let same : opt_eq row.content.previous_hash previous ≡ true = rw p (opt_eq_refl previous) in
      let own : (row.event_hash == h.transition_hash row.content) ≡ true =
        rw e (eq_refl (h.transition_hash row.content)) in
      rw same (rw own (check_events-IsLinked (some row.event_hash) rows l))

  -- The events of every task, in the order of their insertion, are in the order of their times, and linked.
  abbrev pub AreIntact : List TransitionRow → Type 0
  AreIntact rows =
      (task_id : String)
      → IsChronological (events_of task_id rows) × IsLinked none (events_of task_id rows)

  pub AreIntact-append :
      (later : Bool) (rows : List TransitionRow) (event : TransitionRow)
      → AreIntact rows
      → All (λ e. time_of e < time_of event) (events_of event.content.task_id rows)
      → event.content.previous_hash ≡ hash_of (latest later event.content.task_id none rows)
      → event.event_hash ≡ h.transition_hash event.content
      → AreIntact (rows ++ event ∷ [])
  AreIntact-append later rows event intact newer p e task_id =
      elim (Bool-cases (event.content.task_id == task_id)) [
        | inr other ↦ rw (events_of-append task_id rows event) (rw other (intact task_id))
        | inl own ↦
            let (c, l) = intact event.content.task_id in
            let same : event.content.task_id ≡ task_id =
              ground (arith, own, eq_iff event.content.task_id task_id) in
            let before =
              p
              ∙ ap hash_of (latest-eq-last_event later event.content.task_id none rows c tt)
              ∙ last_event-end_hash none (events_of event.content.task_id rows) in
            rw (events_of-append task_id rows event) (
              rw own (
                subst
                  (λ id.
                    IsChronological (events_of id rows ++ event ∷ [])
                    × IsLinked none (events_of id rows ++ event ∷ []))
                  same
                  (
                    IsChronological-append (events_of event.content.task_id rows) event c newer,
                    IsLinked-append none (events_of event.content.task_id rows) event l before e,
                  )))
      ]
