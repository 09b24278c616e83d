-- ===== src/Prelude/Text.antt =====
-- Python's `str` methods on native texts.
use palwakf_agentic_ai_syste.Prelude.Tests.{leb, nat_eq, if◌then◌else◌}
use Prim.Native.Nat.{ℕ, zero, suc, Ordering}
use Prim.Native.Char.{Char, code}
use Prim.Native.String.{String, [], ◌∷◌, compare, count}
use mathlib.Core.Path.{◌≡◌, refl, ap}
use mathlib.Core.Logic.{◌≢◌}
use native.Mathlib.Omega.{arith}
use mathlib.Core.Bool.{Bool, true, false, ◌&&◌, ◌||◌}
use mathlib.Core.Option.{Option as Maybe, none, some}
use text.Mathlib.Text.{◌==◌, starts_with}
use mathlib.Core.List.{List, [] as nil, ◌∷◌ as cons}

-- `str.isspace` of one character
unfoldable pub is_space : Char → Bool
is_space c =
    let n = code c in
    (leb 9 n && leb n 13)
    || (leb 28 n && leb n 32)
    || nat_eq n 133
    || nat_eq n 160
    || nat_eq n 5760
    || (leb 8192 n && leb n 8202)
    || nat_eq n 8232
    || nat_eq n 8233
    || nat_eq n 8239
    || nat_eq n 8287
    || nat_eq n 12288

unfoldable pub lstrip : String → String
lstrip [] = []
lstrip (c ∷ s) = let rest = lstrip s in if is_space c then rest else c ∷ s

abbrev pub is_blank : String → Bool
is_blank [] = true
is_blank (_ ∷ _) = false

unfoldable pub rstrip : String → String
rstrip [] = []
rstrip (c ∷ s) = let rest = rstrip s in if is_blank rest && is_space c then [] else c ∷ rest

-- `s.strip()`
abbrev pub strip : String → String
strip s = rstrip (lstrip s)

-- `not text`, for an optional text
abbrev pub is_falsy : Maybe String → Bool
is_falsy none = true
is_falsy (some s) = is_blank s

pub is_blank-ne : (s : String) → is_blank s ≡ false → s ≢ ""
is_blank-ne [] h = absurd (ground arith)
is_blank-ne (c ∷ s) h = λ e. let q : false ≡ true = ap is_blank e in absurd (ground arith)

pub ne-is_blank : (s : String) → s ≢ "" → is_blank s ≡ false
ne-is_blank [] h = absurd (h refl)
ne-is_blank (c ∷ s) h = refl

-- One step of `sorted` of a set: a text that is there already is not added.
abbrev pub insert_text : String → List String → List String
insert_text x nil = cons x nil
insert_text x (cons y ys) = elim (compare x y) [
  | Ordering.lt ↦ cons x (cons y ys)
  | Ordering.eq ↦ cons y ys
  | Ordering.gt ↦ cons y (insert_text x ys)
]

-- `sorted(set(xs))`
abbrev pub sorted_set : List String → List String
sorted_set nil = nil
sorted_set (cons x xs) = insert_text x (sorted_set xs)

-- The capital letters whose lower case is one ASCII letter, by their number; the last is the Kelvin sign.
abbrev pub lower_table : List (ℕ × Char)
lower_table =
    cons (65, "a")
      (cons (66, "b")
        (cons (67, "c")
          (cons (68, "d")
            (cons (69, "e")
              (cons (70, "f")
                (cons (71, "g")
                  (cons (72, "h")
                    (cons (73, "i")
                      (cons (74, "j")
                        (cons (75, "k")
                          (cons (76, "l")
                            (cons (77, "m")
                              (cons (78, "n")
                                (cons (79, "o")
                                  (cons (80, "p")
                                    (cons (81, "q")
                                      (cons (82, "r")
                                        (cons (83, "s")
                                          (cons (84, "t")
                                            (cons (85, "u")
                                              (cons (86, "v")
                                                (cons (87, "w")
                                                  (cons (88, "x")
                                                    (cons (89, "y")
                                                      (cons (90, "z")
                                                        (cons (8490, "k")
                                                          nil))))))))))))))))))))))))))

abbrev pub lookup : ℕ → Char → List (ℕ × Char) → Char
lookup n c nil = c
lookup n c (cons (m, d) table) = if nat_eq n m then d else lookup n c table

-- `s.lower()`, as far as it is compared with texts of ASCII: a capital of another script is left alone.
unfoldable pub lower : String → String
lower [] = []
lower (c ∷ s) = lookup (code c) c lower_table ∷ lower s

-- `PurePath.suffix` of a name: from its last dot on, which is neither its first nor its last character.
abbrev from_last_dot : String → Maybe String
from_last_dot [] = none
from_last_dot (c ∷ s) = elim (from_last_dot s) [
  | some t ↦ some t
  | none ↦ if nat_eq (code c) 46 then some (c ∷ s) else none
]

unfoldable pub suffix : String → String
suffix [] = []
suffix (c ∷ s) = elim (from_last_dot s) [ none ↦ [] | some t ↦ if t == "." then [] else t ]

-- `s[n:]` in characters
abbrev pub drop_text : ℕ → String → String
drop_text zero s = s
drop_text (suc n) [] = []
drop_text (suc n) (c ∷ s) = drop_text n s

-- `s[:n]` in characters
abbrev pub take_text : ℕ → String → String
take_text zero s = []
take_text (suc n) [] = []
take_text (suc n) (c ∷ s) = c ∷ take_text n s

-- The text before and after the first place where `marker` stands, as `str.find` gives it.
unfoldable pub cut_at : String → String → Maybe (String × String)
cut_at marker [] = none
cut_at marker (c ∷ s) =
    if starts_with (c ∷ s) marker
    then some ([], drop_text (count marker) (c ∷ s))
    else elim (cut_at marker s) [ none ↦ none | some (before, after) ↦ some (c ∷ before, after) ]

abbrev is_line_break : Char → Bool
is_line_break c =
    let n = code c in
    (leb 10 n && leb n 13)
    || (leb 28 n && leb n 30)
    || nat_eq n 133
    || nat_eq n 8232
    || nat_eq n 8233

abbrev onto_first : Char → List String → List String
onto_first c nil = cons (c ∷ []) nil
onto_first c (cons line lines) = cons (c ∷ line) lines

-- `s.splitlines()`
unfoldable pub splitlines : String → List String
splitlines [] = nil
splitlines (c ∷ s) =
    let rest = splitlines s in
    if is_line_break c
    then if nat_eq (code c) 13 && starts_with s "\n" then rest else cons [] rest
    else onto_first c rest

-- `s.strip(q)` of one character
abbrev lstrip_char : ℕ → String → String
lstrip_char n [] = []
lstrip_char n (c ∷ s) = let rest = lstrip_char n s in if nat_eq (code c) n then rest else c ∷ s

abbrev rstrip_char : ℕ → String → String
rstrip_char n [] = []
rstrip_char n (c ∷ s) =
    let rest = rstrip_char n s in if is_blank rest && nat_eq (code c) n then [] else c ∷ rest

abbrev pub strip_char : ℕ → String → String
strip_char n s = rstrip_char n (lstrip_char n s)
