-- ===== src/ChangeControl/Answers/Prose.antt =====
-- A JSON object in the middle of prose is found.
use palwakf_agentic_ai_syste.Prelude.{
  String, ◌≡◌, refl, sym, ap, ◌∙◌, Bool, true, false, none, some, ok,
}
use palwakf_agentic_ai_syste.Prelude.Json.{Json}
use palwakf_agentic_ai_syste.ChangeControl.Answers.{
  Parser, is_open, is_close, from_open, up_to_close, unfenced, extract_json,
}
use Prim.Native.Char.{Char}
use Prim.Native.String.append
use Prim.Native.String.{[] as nil, ◌∷◌ as cons, ◌++◌}

-- No character passes the test.
abbrev pub Lacks : (Char → Bool) → String → Type 0
Lacks test nil = Unit
Lacks test (cons c s) = (test c ≡ false) × Lacks test s

from_open-append :
    (before rest : String) → Lacks is_open before → from_open (before ++ rest) ≡ from_open rest
unfolding from_open
from_open-append nil rest l = rw (append.nil rest) refl
from_open-append (cons c s) rest (no_, l) =
    rw (append.cons c s rest) (rw (no_, from_open) (from_open-append s rest l))

up_to_close-none : (after : String) → Lacks is_close after → up_to_close after ≡ none
unfolding up_to_close
up_to_close-none nil l = refl
up_to_close-none (cons c s) (no_, l) = rw (up_to_close-none s l) (rw no_ refl)

up_to_close-append :
    (closing : Char) (body after : String)
    → is_close closing ≡ true
    → Lacks is_close after
    → up_to_close (body ++ cons closing after) ≡ some (body ++ cons closing nil)
unfolding up_to_close
up_to_close-append closing nil after yes_ l =
    rw (append.nil (cons closing after)) (
      rw (append.nil (cons closing nil))
        (rw (up_to_close-none after l, up_to_close) (rw yes_ refl)))
up_to_close-append closing (cons c s) after yes_ l = rw (append.cons c s (cons closing after)) (
    rw (append.cons c s (cons closing nil))
      (rw (up_to_close-append closing s after yes_ l, up_to_close) refl))

from_open-cons :
    (opening : Char) (s : String)
    → is_open opening ≡ true
    → from_open (cons opening s) ≡ some (cons opening s)
unfolding from_open
from_open-cons opening s yes_ = rw (yes_, from_open) refl

-- The braces and what is between them.
abbrev pub braces : Char → String → Char → String
braces opening body closing = cons opening body ++ cons closing nil

-- If the whole text of an answer is no JSON, but it has an object within prose, with no "{" before it and no "}"
-- after it, then the object is the answer.
pub extract_json-object :
    (p : Parser) (text before body after : String) (opening closing : Char) (value : Json)
    → is_open opening ≡ true
    → is_close closing ≡ true
    → unfenced p text ≡ before ++ (cons opening body ++ cons closing after)
    → Lacks is_open before
    → Lacks is_close after
    → p.loads (unfenced p text) ≡ none
    → p.loads (braces opening body closing) ≡ some value
    → extract_json p text ≡ ok value
unfolding extract_json
extract_json-object p text before body after opening closing value o c e b a n v =
    let opened : from_open (unfenced p text) ≡ some (cons opening body ++ cons closing after) =
      ap from_open e
      ∙ from_open-append before (cons opening body ++ cons closing after) b
      ∙ ap from_open (append.cons opening body (cons closing after))
      ∙ from_open-cons opening (body ++ cons closing after) o
      ∙ ap (λ s. some s) (sym (append.cons opening body (cons closing after))) in
    rw (n, extract_json)
      (rw opened (rw (up_to_close-append closing (cons opening body) after c a) (rw v refl)))
