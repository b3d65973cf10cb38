-- ===== src/Libsingbox/Quiet.antt =====
-- Where the answers of the wrapper hold no `"success":true`: their strings are quoted, so that a quote
-- in them stands behind a backslash.
use hey.Prelude.{
  ℕ, [], ◌∷◌, ◌++◌, Bool, true, false, not, ◌&&◌, ◌||◌, ◌≡◌, refl, none, some, Option, ◌==◌,
  Bool-cases, inl, inr, if◌then◌else◌, arith, suc,
}
use hey.Codec.Text.{Text, text, starts_with, find, contains}
use hey.Codec.Json.{quote, backslash}
use hey.Codec.Response.{success_key}

-- Does every bare quote stand behind a backslash? The flag says that one stands before the text.
unfoldable pub quoted : Bool → Text → Bool
quoted escaped [] = not escaped
quoted true (c ∷ s) = quoted false s
quoted false (c ∷ s) =
    let after = quoted true s in
    let rest = quoted false s in if c == backslash then after else not (c == quote) && rest

-- Does the end of the key, `s":true`, stand nowhere in it?
unfoldable pub quiet : Text → Bool
quiet [] = true
quiet (c ∷ s) = not (starts_with (c ∷ s) (text "s\":true")) && quiet s

or-left : (a b : Bool) → (a || b) ≡ false → a ≡ false
or-left false b h = refl
or-left true b h = cc

or-right : (a b : Bool) → (a || b) ≡ false → b ≡ false
or-right false b h = h
or-right true b h = cc

abbrev found : Option ℕ → Bool
found o = elim o [ none ↦ false | some i ↦ true ]

found-step :
    (b : Bool) (o : Option ℕ)
    → found (if b then some 0 else elim o [ none ↦ none | some i ↦ some (suc i) ]) ≡ (b || found o)
found-step true o = refl
found-step false none = refl
found-step false (some i) = refl

found-here : (b : Bool) → found (if b then some 0 else none) ≡ b
found-here true = refl
found-here false = refl

contains-cons :
    (c : ℕ) (s key : Text) → contains (c ∷ s) key ≡ (starts_with (c ∷ s) key || contains s key)
unfolding contains find
contains-cons c s key = found-step (starts_with (c ∷ s) key) (find s key)

contains-nil : (key : Text) → contains [] key ≡ starts_with [] key
unfolding contains find
contains-nil key = found-here (starts_with [] key)

and-false : (a : Bool) {b : Bool} → b ≡ false → (a && b) ≡ false
and-false true h = h
and-false false h = refl

-- A text that starts with a string has the end of the string in it.
starts-end : (front key s : Text) → contains s key ≡ false → starts_with s (front ++ key) ≡ false
unfolding starts_with
starts-end [] key [] h = rw contains-nil at h
starts-end [] key (c ∷ s) h = or-left _ _ (rw contains-cons at h)
starts-end (k ∷ front) key [] h = refl
starts-end (k ∷ front) key (c ∷ s) h =
    and-false (c == k) (starts-end front key s (or-right _ _ (rw contains-cons at h)))

contains-end : (front key s : Text) → contains s key ≡ false → contains s (front ++ key) ≡ false
contains-end front key [] h = rw contains-nil (starts-end front key [] h)
contains-end front key (c ∷ s) h =
    rw
      (
        contains-cons,
        starts-end front key (c ∷ s) h,
        contains-end front key s (or-right _ _ (rw contains-cons at h)),
      )
      refl

not-and : (a b : Bool) → (not a && b) ≡ true → (a ≡ false) × (b ≡ true)
not-and false b h = (refl, h)
not-and true b h = cc

quiet-lacks : (s : Text) → quiet s ≡ true → contains s (text "s\":true") ≡ false
unfolding quiet contains find starts_with text
quiet-lacks [] h = refl
quiet-lacks (c ∷ s) h =
    let both = not-and (starts_with (c ∷ s) (text "s\":true")) (quiet s) h in
    rw (contains-cons, both.0, quiet-lacks s both.1) refl

-- A quiet text does not report success.
pub quiet-fails : (s : Text) → quiet s ≡ true → contains s success_key ≡ false
unfolding text
quiet-fails s h = contains-end (text "\"succes") (text "s\":true") s (quiet-lacks s h)

quiet-cons :
    (c : ℕ) (s : Text)
    → starts_with (c ∷ s) (text "s\":true") ≡ false
    → quiet s ≡ true
    → quiet (c ∷ s) ≡ true
unfolding quiet
quiet-cons c s h k = rw (h, k) refl

bare :
    (x : ℕ) (p q : Bool)
    → (if x == backslash then p else not (x == quote) && q) ≡ true
    → (x == quote) ≡ false
bare x p q h = ground arith

unescaped :
    (x : ℕ) (p q : Bool)
    → (x == backslash) ≡ false
    → (if x == backslash then p else not (x == quote) && q) ≡ true
    → q ≡ true
unescaped x p q e h = ground arith

escaping :
    (x : ℕ) (p q : Bool)
    → (x == backslash) ≡ true
    → (if x == backslash then p else not (x == quote) && q) ≡ true
    → p ≡ true
escaping x p q e h = ground arith

-- Behind an `s` in a string that is quoted, no quote is followed by the rest of the key.
quoted-behind :
    (c : ℕ) (rest b : Text)
    → (c == b':') ≡ false
    → quoted false b ≡ true
    → starts_with (b ++ (quote ∷ c ∷ rest)) (text "\":true") ≡ false
unfolding quoted starts_with text
quoted-behind c rest [] e h = rw e refl
quoted-behind c rest (x ∷ b) e h = rw (bare x _ _ h) refl

and-when : (a : Bool) {b : Bool} → (a ≡ true → b ≡ false) → (a && b) ≡ false
and-when true h = h refl
and-when false h = refl

quoted-here :
    (c x : ℕ) (rest b : Text)
    → (c == b':') ≡ false
    → ((x == b's') ≡ true → quoted false b ≡ true)
    → starts_with (x ∷ (b ++ (quote ∷ c ∷ rest))) (text "s\":true") ≡ false
unfolding starts_with text
quoted-here c x rest b e h = and-when (x == b's') λ s. quoted-behind c rest b e (h s)

-- A quoted string, its closing quote, and what does not begin with a colon.
pub quoted-quiet :
    (escaped : Bool) (b : Text) (c : ℕ) (rest : Text)
    → (c == b':') ≡ false
    → quoted escaped b ≡ true
    → quiet (c ∷ rest) ≡ true
    → quiet (b ++ (quote ∷ c ∷ rest)) ≡ true
unfolding quoted
quoted-quiet escaped [] c rest e h q =
    quiet-cons quote (c ∷ rest) (unfold starts_with text in refl) q
quoted-quiet true (x ∷ b) c rest e h q =
    quiet-cons x (b ++ (quote ∷ c ∷ rest)) (quoted-here c x rest b e λ s. h)
      (quoted-quiet false b c rest e h q)
quoted-quiet false (x ∷ b) c rest e h q = elim (Bool-cases (x == backslash)) [
  | inl s ↦
      quiet-cons x (b ++ (quote ∷ c ∷ rest)) (quoted-here c x rest b e λ t. ground arith)
        (quoted-quiet true b c rest e (escaping x _ _ s h) q)
  | inr s ↦
      quiet-cons x (b ++ (quote ∷ c ∷ rest)) (quoted-here c x rest b e λ t. unescaped x _ _ s h)
        (quoted-quiet false b c rest e (unescaped x _ _ s h) q)
]
