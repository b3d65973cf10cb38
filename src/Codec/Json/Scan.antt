-- ===== src/Codec/Json/Scan.antt =====
-- `json_escape` against a reader of JSON strings (RFC 8259, section 7).
use hey.Prelude.{
  ℕ, ◌≡◌, refl, [], ◌∷◌, ◌++◌, Bool, true, false, ◌&&◌, ◌||◌, not, Option, none, some,
}
use hey.Prelude.{arith, ◌==◌, ltb, if◌then◌else◌, append_assoc}
use hey.Codec.Text.{Text}
use hey.Codec.Json.{backslash, quote, newline, return, tab, escape, json_escape}

-- The byte that an escape of one letter stands for; `\u` is not read.
unfoldable pub unescape : ℕ → Option ℕ
unescape e =
    if e == quote || e == backslash || e == b'/'
    then some e
    else if e == b'n'
    then some newline
    else if e == b'r'
    then some return
    else if e == b't'
    then some tab
    else if e == b'b'
    then some 8
    else if e == b'f'
    then some 12
    else none

abbrev pub cons_to : ℕ → Option (Text × Text) → Option (Text × Text)
cons_to c none = none
cons_to c (some (s, rest)) = some (c ∷ s, rest)

-- Reads a JSON string behind its opening quote: its content, and what follows the closing quote.
-- The flag is set behind a backslash. A bare control character is no JSON.
unfoldable pub scan : Bool → Text → Option (Text × Text)
unfolding unescape
scan escaped [] = none
scan true (c ∷ s) = elim (unescape c) [ none ↦ none | some byte ↦ cons_to byte (scan false s) ]
scan false (c ∷ s) = elim (c == quote) [
  | true ↦ some ([], s)
  | false ↦ elim (c == backslash) [
    | true ↦ scan true s
    | false ↦ elim (ltb c 32) [ true ↦ none | false ↦ cons_to c (scan false s) ]
  ]
]

-- A control character that `JsonEscape` has no case for.
unfoldable pub is_bare_control : ℕ → Bool
is_bare_control c = ltb c 32 && not (c == newline || c == return || c == tab)

unfoldable pub has_bare_control : Text → Bool
unfolding is_bare_control
has_bare_control [] = false
has_bare_control (c ∷ s) = is_bare_control c || has_bare_control s

scan-escape :
    (c : ℕ) (t : Text)
    → scan false (escape c ++ t) ≡ (if is_bare_control c then none else cons_to c (scan false t))
unfolding scan escape is_bare_control
scan-escape c t = ground arith

-- A reader gets back exactly the text that was escaped, whatever follows the closing quote, unless
-- the text has a control character other than newline, return and tab: then it reads no string.
pub scan-json_escape :
    (input rest : Text)
    → scan false (json_escape input ++ (quote ∷ rest))
      ≡ (if has_bare_control input then none else some (input, rest))
unfolding json_escape has_bare_control
scan-json_escape [] rest = unfold scan in refl
scan-json_escape (c ∷ input) rest =
    rw (append_assoc, scan-escape) (rw (scan-json_escape input rest) (ground arith))
