-- ===== src/Codec/Message.antt =====
-- What `InvokeSuccess` and `ResponseOk` take for the message of a failed call, against the message that
-- the core wrote as a JSON string.
use hey.Prelude.{
  ℕ, suc, take, ◌≡◌, refl, ap, ◌∙◌, ◌+◌, [], ◌∷◌, ◌++◌, append_assoc, Bool, true, false, ◌&&◌,
  Option, none, some, ◌==◌, if◌then◌else◌, arith, drop, is_empty,
}
use hey.Codec.Text.{Text, find, starts_with, contains}
use hey.Codec.Json.{backslash, quote, escape, json_escape}
use hey.Codec.Response.{up_to_quote, success_key, error_key, invoke_success}

-- The message as ArkTS sees it: with its escapes, and up to its first quote, whose backslash stays.
unfoldable pub shown : Text → Text
shown [] = []
shown (c ∷ m) = let rest = shown m in if c == quote then backslash ∷ [] else escape c ++ rest

-- One step of `find`, and the text up to what it finds.
abbrev find_step : Bool → Option ℕ → Option ℕ
find_step b rest = if b then some 0 else elim rest [ none ↦ none | some i ↦ some (suc i) ]

abbrev cut : Option ℕ → Text → Text
cut o s = elim o [ none ↦ s | some n ↦ take n s ]

cut-find_step :
    (b : Bool) (rest : Option ℕ) (c : ℕ) (s : Text)
    → cut (find_step (b && true) rest) (c ∷ s) ≡ (if b then [] else c ∷ cut rest s)
cut-find_step true rest c s = refl
cut-find_step false none c s = refl
cut-find_step false (some i) c s = refl

up_to_quote-cons :
    (c : ℕ) (s : Text) → up_to_quote (c ∷ s) ≡ (if c == quote then [] else c ∷ up_to_quote s)
unfolding up_to_quote find starts_with
up_to_quote-cons c s = cut-find_step (c == quote) (find s (quote ∷ [])) c s

up_to_quote-escape :
    (c : ℕ) (t : Text)
    → up_to_quote (escape c ++ t)
      ≡ (if c == quote then backslash ∷ [] else escape c ++ up_to_quote t)
unfolding escape
up_to_quote-escape c t = ground (
  arith,
  up_to_quote-cons c t,
  two backslash,
  two quote,
  two b'n',
  two b'r',
  two b't',
  up_to_quote-cons backslash t,
  up_to_quote-cons quote t,
  up_to_quote-cons b'n' t,
  up_to_quote-cons b'r' t,
  up_to_quote-cons b't' t,
)
  where
    two : (x : ℕ) → up_to_quote (backslash ∷ x ∷ t) ≡ backslash ∷ up_to_quote (x ∷ t)
    two x = up_to_quote-cons backslash (x ∷ t)

up_to_quote-json_escape :
    (m after : Text) → up_to_quote (json_escape m ++ (quote ∷ after)) ≡ shown m
unfolding json_escape shown
up_to_quote-json_escape [] after = up_to_quote-cons quote after
up_to_quote-json_escape (c ∷ m) after =
    rw (append_assoc, up_to_quote-escape, up_to_quote-json_escape m after) refl

shown-nonempty : (m : Text) → is_empty m ≡ false → is_empty (shown m) ≡ false
unfolding shown escape
shown-nonempty [] h = cc
shown-nonempty (c ∷ m) h = ground arith

-- A response that does not report success and whose first `"error":"` is followed by an escaped message
-- that is not empty and by the closing quote fails with that message as `shown`: its escapes stay, and
-- it ends with a backslash at the first quote of it.
pub invoke_success-shown :
    (response err m after : Text) (key : ℕ)
    → contains response success_key ≡ false
    → find response error_key ≡ some key
    → drop (key + 9) response ≡ json_escape m ++ (quote ∷ after)
    → is_empty m ≡ false
    → invoke_success response err ≡ (false, shown m)
unfolding invoke_success
invoke_success-shown response err m after key fails found here some_text =
    let read = ap up_to_quote here ∙ up_to_quote-json_escape m after in
    rw (found, fails, read, shown-nonempty m some_text) refl
