-- ===== src/Libsingbox/Answers.antt =====
-- What the bridge reads in the answers of the wrapper.
use hey.Prelude.{
  ℕ, append_assoc, ap, ◌∙◌, sym, [], ◌∷◌, ◌++◌, Bool, true, false, not, ◌≡◌, refl, none, some,
  Option, is_some, is_empty, ◌==◌, if◌then◌else◌, All,
}
use hey.Codec.Text.{Text, text, contains, find, starts_with}
use hey.Codec.Json.{quote}
use hey.Codec.Base64.{base64_encode, base64_decode}
use hey.Codec.Base64.Groups.{IsByte, groups, base64_encode-groups}
use hey.Codec.Base64.RoundTrip.{base64_decode-base64_encode}
use hey.Codec.Response.{response_ok, success_key}
use hey.Behaviour.Transport.Fields.{All-append, bytes, bytes_sound}
use hey.Libsingbox
use hey.Libsingbox.{Packages, CallResponse}
use hey.Libsingbox.Quiet.{quoted, quiet, quiet-fails, quoted-quiet}

-- A field that is left out where it is empty.
abbrev pub member : Text → (Text → Text) → Text → Text
member name escape s =
    if is_empty s then [] else text ",\"" ++ (name ++ (text "\":\"" ++ (escape s ++ text "\"")))

-- What the documents of `encoding/json` and `encoding/base64` say: the fields stand in their order, those
-- that are marked so only where they are not empty; in a string each quote stands behind a backslash; and
-- the standard encoding is that of RFC 4648.
pub record Documented (go : Packages) : Type 0 where
  pub escape : Text → Text
  pub escape_bytes : (s : Text) → All IsByte (escape s)
  pub escape_quotes : (s : Text) → quoted false (escape s) ≡ true
  pub marshal :
      (r : CallResponse)
      → go.marshal r
        ≡ text "{\"success\":"
          ++ ((if r.success then text "true" else text "false")
              ++ (member (text "data") escape r.data_text
                  ++ (member (text "err") escape r.err ++ text "}")))
  pub encode : (raw : Text) → All IsByte raw → go.encode_to_string raw ≡ groups raw

response_ok-decoded :
    (answer decoded : Text)
    → base64_decode answer ≡ decoded
    → is_empty decoded ≡ false
    → (response_ok answer).0 ≡ contains decoded success_key
unfolding response_ok
response_ok-decoded answer decoded e h =
    rw (e, h) (flag (contains decoded success_key) _ _ refl refl)
  where
    flag : (b : Bool) (p q : Bool × Text) → p.0 ≡ true → q.0 ≡ false → (if b then p else q).0 ≡ b
    flag true p q h k = h
    flag false p q h k = k

module _ (go : Packages) (doc : Documented go) where
  -- The text that is encoded.
  abbrev body : Bool → Text → Text → Text
  body ok data_text err =
      text "{\"success\":"
      ++ ((if ok then text "true" else text "false")
          ++ (member (text "data") doc.escape data_text
              ++ (member (text "err") doc.escape err ++ text "}")))

  member-bytes :
      (name s rest : Text)
      → bytes name ≡ true
      → All IsByte rest
      → All IsByte (member name doc.escape s ++ rest)
  unfolding text
  member-bytes name [] rest h k = k
  member-bytes name (c ∷ s) rest h k =
      All-append IsByte (member name doc.escape (c ∷ s)) rest
        (All-append IsByte (text ",\"") _ (bytes_sound (text ",\"") refl) (
          All-append IsByte name _ (bytes_sound name h) (
            All-append IsByte (text "\":\"") _ (bytes_sound (text "\":\"") refl) (
              All-append IsByte (doc.escape (c ∷ s)) (text "\"") (doc.escape_bytes (c ∷ s))
                (bytes_sound (text "\"") refl)))))
        k

  body-bytes : (ok : Bool) (data_text err : Text) → All IsByte (body ok data_text err)
  unfolding text
  body-bytes ok data_text err =
      All-append IsByte (text "{\"success\":") _ (bytes_sound (text "{\"success\":") refl) (
        All-append IsByte (if ok then text "true" else text "false") _
          (elim ok as (λ b. All IsByte (if b then text "true" else text "false")) [
            | true ↦ bytes_sound (text "true") refl
            | false ↦ bytes_sound (text "false") refl
          ])
          (member-bytes (text "data") data_text _ refl
            (member-bytes (text "err") err (text "}") refl (bytes_sound (text "}") refl))))

  some_body : (ok : Bool) (data_text err : Text) → is_empty (body ok data_text err) ≡ false
  unfolding text
  some_body ok data_text err = refl

  -- A string of the object, and what stands behind it.
  string-quiet :
      (s : Text) (c : ℕ) (rest : Text)
      → (c == b':') ≡ false
      → quiet (c ∷ rest) ≡ true
      → quiet ((doc.escape s ++ (quote ∷ [])) ++ (c ∷ rest)) ≡ true
  string-quiet s c rest e h =
      rw append_assoc (quoted-quiet false (doc.escape s) c rest e (doc.escape_quotes s) h)

  fails-quiet : (data_text err : Text) → quiet (body false data_text err) ≡ true
  unfolding quiet text starts_with
  fails-quiet [] [] = refl
  fails-quiet [] (c ∷ s) = string-quiet (c ∷ s) b'}' [] refl refl
  fails-quiet (c ∷ s) [] = string-quiet (c ∷ s) b'}' [] refl refl
  fails-quiet (c ∷ s) (d ∷ t) =
      string-quiet (c ∷ s) b',' _ refl (string-quiet (d ∷ t) b'}' [] refl refl)

  succeeds : (data_text err : Text) → contains (body true data_text err) success_key ≡ true
  unfolding contains find starts_with text
  succeeds data_text err = refl

  body-read : (ok : Bool) (data_text err : Text) → contains (body ok data_text err) success_key ≡ ok
  body-read true data_text err = succeeds data_text err
  body-read false data_text err = quiet-fails (body false data_text err) (fails-quiet data_text err)

  encode-body :
      (data_text : Text) (err : Option Text)
      → Libsingbox.encode go data_text err
        ≡ base64_encode (body (not (is_some err)) data_text (elim err [ none ↦ [] | some e ↦ e ]))
  unfolding Libsingbox.encode
  encode-body data_text err =
      let bytes_in =
        body-bytes (not (is_some err)) data_text (elim err [ none ↦ [] | some e ↦ e ]) in
      ap go.encode_to_string (
        doc.marshal (record {
          success = not (is_some err);
          data_text = data_text;
          err = elim err [ none ↦ [] | some e ↦ e ];
        }))
      ∙ doc.encode _ bytes_in
      ∙ sym (base64_encode-groups _ bytes_in)

  -- `ResponseOk` reports success exactly of an answer without an error.
  pub encode-response_ok :
      (data_text : Text) (err : Option Text)
      → (response_ok (Libsingbox.encode go data_text err)).0 ≡ not (is_some err)
  encode-response_ok data_text err =
      let ok = not (is_some err) in
      let said : Text = elim err [ none ↦ [] | some e ↦ e ] in
      response_ok-decoded (Libsingbox.encode go data_text err) (body ok data_text said)
        (ap base64_decode (encode-body data_text err)
          ∙ base64_decode-base64_encode _ (body-bytes ok data_text said))
        (some_body ok data_text said)
      ∙ body-read ok data_text said
