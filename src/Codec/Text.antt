-- ===== src/Codec/Text.antt =====
-- Byte strings, as `std::string` holds them, and the members of it that the bridge calls.
use Prim.Native.Char.{code}
use Prim.Native.String.{String}
use hey.Prelude.{ℕ, suc, List, [], ◌∷◌, Bool, true, false, ◌&&◌, Option, none, some}
use hey.Prelude.{◌==◌, if◌then◌else◌}

-- The bytes of a `std::string`; each is below 256.
abbrev pub Text : Type 0
Text = List ℕ

-- The bytes of a literal. Every literal of the source is ASCII, where a code point is its byte.
unfoldable pub text : String → Text
text String.[] = []
text (String.◌∷◌ c s) = code c ∷ text s

-- What a callee reads through a `char*`: the bytes before the first NUL.
unfoldable pub c_str : Text → Text
c_str [] = []
c_str (c ∷ s) = let rest = c_str s in if c == 0 then [] else c ∷ rest

unfoldable pub starts_with : Text → Text → Bool
starts_with s [] = true
starts_with [] (k ∷ key) = false
starts_with (c ∷ s) (k ∷ key) = c == k && starts_with s key

-- `s.find(key)`, `none` for `npos`.
unfoldable pub find : Text → Text → Option ℕ
unfolding starts_with
find [] key = if starts_with [] key then some 0 else none
find (c ∷ s) key =
    let rest = find s key in
    if starts_with (c ∷ s) key then some 0 else elim rest [ none ↦ none | some i ↦ some (suc i) ]

unfoldable pub contains : Text → Text → Bool
unfolding find
contains s key = elim (find s key) [ none ↦ false | some i ↦ true ]

-- `s.find_last_of(c)` for one byte.
unfoldable pub find_last_of : Text → ℕ → Option ℕ
find_last_of [] k = none
find_last_of (c ∷ s) k = elim (find_last_of s k) [
  | some i ↦ some (suc i)
  | none ↦ if c == k then some 0 else none
]

-- `a == b` of two strings.
unfoldable pub text_eq : Text → Text → Bool
text_eq [] [] = true
text_eq (c ∷ s) (k ∷ t) = c == k && text_eq s t
text_eq _ _ = false
