-- ===== src/Prelude/Utf8.antt =====
-- `str.encode("utf-8")`: the bytes of a text, which holds no surrogates.
use palwakf_agentic_ai_syste.Prelude.Tests.{ltb, if◌then◌else◌}
use Prim.Native.Nat.{ℕ, ◌+◌, ◌/◌, ◌%◌}
use Prim.Native.Char.{code}
use Prim.Native.String.{String, [], ◌∷◌}
use mathlib.Core.List.{List, [] as nil, ◌∷◌ as cons, ◌++◌}

abbrev pub Bytes : Type 0
Bytes = List ℕ

-- The bytes of one code point.
unfoldable pub utf8_char : ℕ → Bytes
utf8_char n =
    if ltb n 128
    then cons n nil
    else if ltb n 2048
    then cons (192 + n / 64) (cons (128 + n % 64) nil)
    else if ltb n 65536
    then cons (224 + n / 4096) (cons (128 + (n / 64) % 64) (cons (128 + n % 64) nil))
    else cons (240 + n / 262144)
        (cons (128 + (n / 4096) % 64) (cons (128 + (n / 64) % 64) (cons (128 + n % 64) nil)))

unfoldable pub utf8 : String → Bytes
unfolding utf8_char
utf8 [] = nil
utf8 (c ∷ s) = utf8_char (code c) ++ utf8 s
