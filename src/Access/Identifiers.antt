-- ===== src/Access/Identifiers.antt =====
-- Which identifiers `validate_identifier` accepts, and that it leaves alone what it returned.
use palwakf_agentic_ai_syste.Prelude.{
  ℕ, ◌≤◌, ◌⊎◌, ◌↔◌, ◌≢◌, String, ◌≡◌, refl, Bool, true, false, ◌&&◌, ◌||◌, not, List, all, leb,
  nat_eq, ok, raise_if-eq-ok, arith,
}
use palwakf_agentic_ai_syste.Prelude.Text.{
  is_space, is_blank, is_blank-ne, ne-is_blank, lstrip, rstrip, strip, lower, lower_table, lookup,
}
use palwakf_agentic_ai_syste.Access.{AccessError, is_id_char, all_id_chars, validate_identifier}
use Prim.Native.Char.{Char, code}
use Prim.Native.String.{[] as end, ◌∷◌ as push}
use mathlib.Core.List.{[] as nil, ◌∷◌ as cons}

abbrev is_capital : ℕ → Bool
is_capital n = (leb 65 n && leb n 90) || nat_eq n 8490

lookup-other :
    (n : ℕ) (c : Char) (table : List (ℕ × Char))
    → is_capital n ≡ false
    → all (λ entry. is_capital entry.0) table ≡ true
    → lookup n c table ≡ c
lookup-other n c nil h t = refl
lookup-other n c (cons (m, d) table) h t = ground (arith, lookup-other n c table h)

is_id_char-is_capital : (c : Char) → is_id_char false c ≡ true → is_capital (code c) ≡ false
is_id_char-is_capital c h = ground arith

is_id_char-is_space : (c : Char) → is_id_char false c ≡ true → is_space c ≡ false
unfolding is_space
is_id_char-is_space c h = ground arith

lower-id : (s : String) → all_id_chars false s ≡ true → lower s ≡ s
unfolding lower
lower-id end h = refl
lower-id (push c s) h = rw (
  lookup-other (code c) c lower_table (is_id_char-is_capital c (ground arith)) refl,
  lower-id s (ground arith),
)

lstrip-id : (s : String) → all_id_chars false s ≡ true → lstrip s ≡ s
unfolding lstrip
lstrip-id end h = refl
lstrip-id (push c s) h = ground (arith, is_id_char-is_space c)

rstrip-id : (s : String) → all_id_chars false s ≡ true → rstrip s ≡ s
unfolding rstrip
rstrip-id end h = refl
rstrip-id (push c s) h = ground (arith, is_id_char-is_space c, rstrip-id s)

pub validate_identifier_again :
    (e : AccessError) (value cleaned : String)
    → validate_identifier e value ≡ ok cleaned
    → validate_identifier e cleaned ≡ ok cleaned
unfolding validate_identifier
validate_identifier_again e value cleaned h =
    let text = lower (strip value) in
    let (valid, same) =
      raise_if-eq-ok (is_blank text || not (all_id_chars false text)) e (ok text) h in
    let named : text ≡ cleaned = ground arith in
    let safe : all_id_chars false cleaned ≡ true = rw⁻¹ named (ground arith) in
    rw (lstrip-id cleaned safe, rstrip-id cleaned safe, lower-id cleaned safe) (rw named at h)

-- The number of a letter a to z, a digit, an underscore or a dash.
abbrev pub IsNameCode : ℕ → Type 0
IsNameCode n = ((97 ≤ n) × (n ≤ 122)) ⊎ ((48 ≤ n) × (n ≤ 57)) ⊎ (n ≡ 95) ⊎ (n ≡ 45)

-- A text of such characters only.
abbrev pub IsName : String → Type 0
IsName end = Unit
IsName (push c s) = IsNameCode (code c) × IsName s

is_id_char_iff : (c : Char) → (is_id_char false c ≡ true) ↔ IsNameCode (code c)
is_id_char_iff c = ground arith

all_id_chars→IsName : (s : String) → all_id_chars false s ≡ true → IsName s
all_id_chars→IsName end h = tt
all_id_chars→IsName (push c s) h =
    ((is_id_char_iff c).0 (ground arith), all_id_chars→IsName s (ground arith))

IsName→all_id_chars : (s : String) → IsName s → all_id_chars false s ≡ true
IsName→all_id_chars end h = refl
IsName→all_id_chars (push c s) (first, rest) =
    rw ((is_id_char_iff c).1 first, IsName→all_id_chars s rest) refl

-- An identifier is accepted, with the text that is returned, exactly when that text is the given one without
-- the spaces around it and in lower case, is not empty, and has letters a to z, digits, underscores and dashes only.
pub validate_identifier_iff :
    (e : AccessError) (value cleaned : String)
    → (validate_identifier e value ≡ ok cleaned)
      ↔ ((cleaned ≡ lower (strip value)) × (cleaned ≢ "") × IsName cleaned)
unfolding validate_identifier
validate_identifier_iff e value cleaned =
    let text = lower (strip value) in
    (
      λ h.
          let (valid, same) =
            raise_if-eq-ok (is_blank text || not (all_id_chars false text)) e (ok text) h in
          let named : cleaned ≡ text = ground arith in
          rw named (refl, is_blank-ne text (ground arith), all_id_chars→IsName text (ground arith)),
      λ t.
          let (named, filled, name) = t in
          rw⁻¹ named (rw (ne-is_blank cleaned filled, IsName→all_id_chars cleaned name) refl),
    )
