-- ===== src/Behaviour/Transport/Fields.antt =====
-- JSON objects of string fields as the bridge writes them, and a reader that takes them apart again.
use hey.Prelude.{
  ℕ, ◌≡◌, refl, ◌∙◌, ap, List, [], ◌∷◌, ◌++◌, Bool, true, false, not, ◌&&◌, Option, none, some,
  arith, ltb, length, drop, All, drop-length-append, ◌==◌, ==-refl,
}
use hey.Codec.Text.{Text, c_str, starts_with}
use hey.Codec.Base64.{base64_encode, base64_decode}
use hey.Codec.Base64.Groups.{IsByte}
use hey.Codec.Base64.RoundTrip.{base64_decode-base64_encode}
use hey.Codec.Json.{quote, escape, json_escape}
use hey.Codec.Json.Scan.{scan, is_bare_control, has_bare_control, scan-json_escape}

-- String fields of a JSON object, each given by the text up to the opening quote and its content.
unfoldable pub write_fields : List (Text × Text) → Text → Text
write_fields [] end = end
write_fields ((key, value) ∷ fields) end =
    key ++ (json_escape value ++ (quote ∷ write_fields fields end))

abbrev pub cons_value : Text → Option (List Text × Text) → Option (List Text × Text)
cons_value value none = none
cons_value value (some (values, end)) = some (value ∷ values, end)

-- The contents of such fields, and what follows them.
unfoldable pub read_fields : List Text → Text → Option (List Text × Text)
read_fields [] s = some ([], s)
read_fields (key ∷ keys) s = elim (starts_with s key) [
  | false ↦ none
  | true ↦ elim (scan false (drop (length key) s)) [
    | none ↦ none
    | some (value, rest) ↦ cons_value value (read_fields keys rest)
  ]
]

abbrev pub keys_of : List (Text × Text) → List Text
keys_of [] = []
keys_of ((key, value) ∷ fields) = key ∷ keys_of fields

abbrev pub values_of : List (Text × Text) → List Text
values_of [] = []
values_of ((key, value) ∷ fields) = value ∷ values_of fields

-- Nothing that JSON does not allow in a string.
abbrev pub Printable : Text → Type 0
Printable s = has_bare_control s ≡ false

starts_with-append : (key s : Text) → starts_with (key ++ s) key ≡ true
unfolding starts_with
starts_with-append [] [] = refl
starts_with-append [] (c ∷ s) = refl
starts_with-append (k ∷ key) s = rw (==-refl k) (starts_with-append key s)

scan-Printable :
    (value rest : Text)
    → Printable value
    → scan false (json_escape value ++ (quote ∷ rest)) ≡ some (value, rest)
scan-Printable value rest h = rw (scan-json_escape value rest, h)

read_field :
    (key : Text) (keys : List Text) (value rest : Text)
    → Printable value
    → read_fields (key ∷ keys) (key ++ (json_escape value ++ (quote ∷ rest)))
      ≡ cons_value value (read_fields keys rest)
unfolding read_fields
read_field key keys value rest h = rw (
  starts_with-append key (json_escape value ++ (quote ∷ rest)),
  drop-length-append key (json_escape value ++ (quote ∷ rest)),
  scan-Printable value rest h,
  read_fields,
)

pub read_fields-write_fields :
    (fields : List (Text × Text)) (end : Text)
    → All Printable (values_of fields)
    → read_fields (keys_of fields) (write_fields fields end) ≡ some (values_of fields, end)
unfolding read_fields write_fields
read_fields-write_fields [] end h = refl
read_fields-write_fields ((key, value) ∷ fields) end (p, h) =
    read_field key (keys_of fields) value (write_fields fields end) p
    ∙ ap (cons_value value) (read_fields-write_fields fields end h)

pub All-append : (P : ℕ → Type 0) (xs ys : Text) → All P xs → All P ys → All P (xs ++ ys)
All-append P [] ys h k = k
All-append P (x ∷ xs) ys (a, h) k = (a, All-append P xs ys h k)

escape-bytes : (c : ℕ) → IsByte c → All IsByte (escape c)
unfolding escape
escape-bytes c h = ground arith

json_escape-bytes : (s : Text) → All IsByte s → All IsByte (json_escape s)
unfolding json_escape
json_escape-bytes [] h = tt
json_escape-bytes (c ∷ s) (b, h) =
    All-append IsByte (escape c) (json_escape s) (escape-bytes c b) (json_escape-bytes s h)

pub write_fields-bytes :
    (fields : List (Text × Text)) (end : Text)
    → All (All IsByte) (keys_of fields)
    → All (All IsByte) (values_of fields)
    → All IsByte end
    → All IsByte (write_fields fields end)
unfolding write_fields
write_fields-bytes [] end hk hv h = h
write_fields-bytes ((key, value) ∷ fields) end (k, hk) (v, hv) h = All-append IsByte key _ k (
    All-append IsByte (json_escape value) _ (json_escape-bytes value v)
      (omega arith, write_fields-bytes fields end hk hv h))

-- The request as the core decodes it.
pub read_fields-base64 :
    (fields : List (Text × Text)) (end : Text)
    → All (All IsByte) (keys_of fields)
    → All (All IsByte) (values_of fields)
    → All IsByte end
    → All Printable (values_of fields)
    → read_fields (keys_of fields) (base64_decode (base64_encode (write_fields fields end)))
      ≡ some (values_of fields, end)
read_fields-base64 fields end hk hv h p =
    ap (read_fields (keys_of fields)) (
      base64_decode-base64_encode (write_fields fields end) (write_fields-bytes fields end hk hv h))
    ∙ read_fields-write_fields fields end p

-- All bytes below 256, by evaluation.
abbrev pub bytes : Text → Bool
bytes [] = true
bytes (c ∷ s) = ltb c 256 && bytes s

pub bytes_sound : (s : Text) → bytes s ≡ true → All IsByte s
bytes_sound [] h = tt
bytes_sound (c ∷ s) h = ground (arith, bytes_sound s)

-- libXray gets its requests as a C string.
abbrev pub NotNul : ℕ → Type 0
NotNul c = (c == 0) ≡ false

c_str-whole : (s : Text) → All NotNul s → c_str s ≡ s
unfolding c_str
c_str-whole [] h = refl
c_str-whole (c ∷ s) (n, h) = rw (n, c_str-whole s h)

escape-whole : (c : ℕ) → is_bare_control c ≡ false → All NotNul (escape c)
unfolding escape is_bare_control
escape-whole c h = ground arith

json_escape-whole : (s : Text) → Printable s → All NotNul (json_escape s)
unfolding json_escape has_bare_control
json_escape-whole [] h = tt
json_escape-whole (c ∷ s) h =
    All-append NotNul (escape c) (json_escape s) (escape-whole c (ground arith))
      (json_escape-whole s (ground arith))

write_fields-whole :
    (fields : List (Text × Text)) (end : Text)
    → All (All NotNul) (keys_of fields)
    → All Printable (values_of fields)
    → All NotNul end
    → All NotNul (write_fields fields end)
unfolding write_fields
write_fields-whole [] end hk hv h = h
write_fields-whole ((key, value) ∷ fields) end (k, hk) (v, hv) h = All-append NotNul key _ k (
    All-append NotNul (json_escape value) _ (json_escape-whole value v)
      (refl, write_fields-whole fields end hk hv h))

pub read_fields-c_str :
    (fields : List (Text × Text)) (end : Text)
    → All (All NotNul) (keys_of fields)
    → All NotNul end
    → All Printable (values_of fields)
    → read_fields (keys_of fields) (c_str (write_fields fields end)) ≡ some (values_of fields, end)
read_fields-c_str fields end hk h p =
    ap (read_fields (keys_of fields))
      (c_str-whole (write_fields fields end) (write_fields-whole fields end hk p h))
    ∙ read_fields-write_fields fields end p

abbrev pub no_nul : Text → Bool
no_nul [] = true
no_nul (c ∷ s) = not (c == 0) && no_nul s

pub no_nul_sound : (s : Text) → no_nul s ≡ true → All NotNul s
no_nul_sound [] h = tt
no_nul_sound (c ∷ s) h = ground (arith, no_nul_sound s)
