-- ===== src/Codec/Json.antt =====
-- `JsonEscape` of entry/src/main/cpp/napi_init.cpp.
pub mod Scan
use hey.Prelude.{ℕ, [], ◌∷◌, ◌++◌, ◌==◌, if◌then◌else◌}
use hey.Codec.Text.{Text}

-- The bytes that the source writes as '\\', '"', '\n', '\r' and '\t'.
abbrev pub backslash : ℕ
backslash = 92

abbrev pub quote : ℕ
quote = 34

abbrev pub newline : ℕ
newline = 10

abbrev pub return : ℕ
return = 13

abbrev pub tab : ℕ
tab = 9

-- The `switch` over one character.
unfoldable pub escape : ℕ → Text
escape ch =
    if ch == backslash
    then backslash ∷ backslash ∷ []
    else if ch == quote
    then backslash ∷ quote ∷ []
    else if ch == newline
    then backslash ∷ b'n' ∷ []
    else if ch == return
    then backslash ∷ b'r' ∷ []
    else if ch == tab
    then backslash ∷ b't' ∷ []
    else ch ∷ []

unfoldable pub json_escape : Text → Text
unfolding escape
json_escape [] = []
json_escape (ch ∷ input) = escape ch ++ json_escape input
