-- ===== src/ChangeControl/Answers.antt =====
-- `_extract_json`: the JSON value in the answer of a local model.
pub mod Prose
use palwakf_agentic_ai_syste.Prelude.{
  String, Bool, true, false, Option, none, some, nat_eq, if◌then◌else◌, Result, ok, err, or_raise,
  ◌>>=◌,
}
use palwakf_agentic_ai_syste.Prelude.Json.{Json}
use palwakf_agentic_ai_syste.Prelude.Text.{strip}
use palwakf_agentic_ai_syste.ChangeControl.Schema.{
  ChangeError, model_output_json_not_found, json_decode_error,
}
use Prim.Native.Char.{Char, code}
use Prim.Native.String.{[] as nil, ◌∷◌ as cons}
use text.Mathlib.Text.{starts_with}

-- `json.loads`, which is none where it raises `JSONDecodeError`, and `re.sub`.
pub record Parser : Type 0 where
  pub loads : String → Option Json
  pub sub : String → String → String → String

abbrev pub is_open : Char → Bool
is_open c = nat_eq (code c) 123

abbrev pub is_close : Char → Bool
is_close c = nat_eq (code c) 125

-- `text[text.find("{"):]`
unfoldable pub from_open : String → Option String
from_open nil = none
from_open (cons c s) = elim (is_open c) [ true ↦ some (cons c s) | false ↦ from_open s ]

-- `text[:text.rfind("}") + 1]`
unfoldable pub up_to_close : String → Option String
up_to_close nil = none
up_to_close (cons c s) = elim (up_to_close s) [
  | some rest ↦ some (cons c rest)
  | none ↦ if is_close c then some (cons c nil) else none
]

-- `stripped`
unfoldable pub unfenced : Parser → String → String
unfenced p text =
    let stripped = strip text in
    if starts_with stripped "```"
    then p.sub "\\s*```$" "" (p.sub "^```(?:json)?\\s*" "" stripped)
    else stripped

-- `stripped[start:end + 1]`, where `start` and `end` are there and `end` is after `start`.
abbrev pub braced : String → Option String
braced text = elim (from_open text) [ none ↦ none | some rest ↦ up_to_close rest ]

-- `_extract_json`
unfoldable pub extract_json : Parser → String → Result ChangeError Json
extract_json p text = elim (p.loads (unfenced p text)) [
  | some value ↦ ok value
  | none ↦ elim (braced (unfenced p text)) [
    | none ↦ err model_output_json_not_found
    | some part ↦ or_raise (p.loads part) json_decode_error
  ]
]

-- What `_generate_model_json` makes of the answer of `_ollama_request`.
unfoldable pub model_answer : Parser → Result ChangeError String → Result ChangeError Json
model_answer p response = do raw ← response; extract_json p raw
