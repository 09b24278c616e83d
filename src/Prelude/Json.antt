-- ===== src/Prelude/Json.antt =====
-- What `json.loads` returns.
use Prim.Native.String.{String}
use mathlib.Core.Bool.{Bool, true, false}
use mathlib.Core.Option.{Option, none, some}
use mathlib.Core.List.{List, [], ◌∷◌}
use text.Mathlib.Text.{◌==◌}
use palwakf_agentic_ai_syste.Prelude.Tests.{if◌then◌else◌}
use palwakf_agentic_ai_syste.Prelude.Text.{is_blank}

mutual
  -- A number is its text, and whether it is zero.
  pub data Json : Type 0 where
    null : Json
    boolean : Bool → Json
    number : Bool → String → Json
    string : String → Json
    array : Items → Json
    object : Members → Json

  pub data Items : Type 0 where
    no_items : Items
    item : Json → Items → Items

  pub data Members : Type 0 where
    no_members : Members
    member : String → Json → Members → Members

-- `members.get(key)`: of a repeated key `json.loads` keeps the last value.
unfoldable pub find : String → Members → Option Json
find key no_members = none
find key (member name value entries) = elim (find key entries) [
  | some later ↦ some later
  | none ↦ if name == key then some value else none
]

-- `bool(value)`
unfoldable pub is_truthy : Json → Bool
is_truthy null = false
is_truthy (boolean b) = b
is_truthy (number true digits) = false
is_truthy (number false digits) = true
is_truthy (string s) = elim (is_blank s) [ true ↦ false | false ↦ true ]
is_truthy (array no_items) = false
is_truthy (array (item value items)) = true
is_truthy (object no_members) = false
is_truthy (object (member key value entries)) = true

-- `str(members.get(key) or default)`, with `str` of a value that is no text as an argument.
unfoldable pub text_or : (Json → String) → String → Option Json → String
text_or str default none = default
text_or str default (some value) =
    if is_truthy value then elim value [ string s ↦ s | other ↦ str other ] else default

-- A list of texts, if it is one.
unfoldable pub texts_of : Items → Option (List String)
texts_of no_items = some []
texts_of (item value items) = elim (texts_of items) [
  | none ↦ none
  | some rest ↦ elim value [ string s ↦ some (s ∷ rest) | _ ↦ none ]
]
