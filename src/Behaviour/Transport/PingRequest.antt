-- ===== src/Behaviour/Transport/PingRequest.antt =====
-- The request by which `PingOutbound` has libXray measure a delay, read back field by field.
use hey.Prelude.{
  ℕ, zero, suc, ◌+◌, ◌/◌, ◌%◌, ◌^◌, ◌<◌, ◌≡◌, refl, ◌∙◌, ap, List, [], ◌∷◌, ◌++◌, append_assoc,
  some, arith, All, ltb, Bool-cases, inl, inr,
}
use hey.Codec.Text.{Text, text, c_str}
use hey.Codec.Json.{json_escape}
use hey.Codec.Json.Scan.{has_bare_control}
use hey.Codec.Decimal.{digits_onto, decimal}
use hey.Codec.Delay.{digits_from-decimal}
use hey.Codec.Response.{digits_from}
use hey.Ping
use hey.Loader.Xray as Loader
use hey.Behaviour.Transport.Fields.{
  write_fields, read_fields, keys_of, Printable, NotNul, All-append, read_fields-c_str,
  no_nul_sound,
}

-- The key of the third string field holds the timeout too.
abbrev pub url_key : ℕ → Text
url_key timeout = text ",\"timeout\":" ++ (decimal timeout ++ text ",\"url\":\"")

abbrev pub ping_fields : Text → ℕ → Text → Text → List (Text × Text)
ping_fields config_path timeout url proxy =
    (text "{\"apiVersion\":1,\"method\":\"", text "ping")
    ∷ (text ",\"payload\":{\"configPath\":\"", config_path)
    ∷ (url_key timeout, url)
    ∷ (text ",\"proxy\":\"", proxy)
    ∷ []

digits_onto-NotNul :
    (fuel n : ℕ) (rest : Text) → All NotNul rest → All NotNul (digits_onto fuel n rest)
unfolding digits_onto
digits_onto-NotNul zero n rest h = h
digits_onto-NotNul (suc fuel) n rest h =
    elim (Bool-cases (ltb n 10)) as (λ x. All NotNul (digits_onto (suc fuel) n rest)) [
      | inl e ↦ rw e (ground arith, h)
      | inr e ↦ rw e (digits_onto-NotNul fuel (n / 10) ((b'0' + n % 10) ∷ rest) (ground arith, h))
    ]

invoke_request-ping_payload :
    (config_path : Text) (timeout : ℕ) (url proxy : Text)
    → Loader.invoke_request (text "ping") (Ping.ping_payload config_path timeout url proxy)
      ≡ write_fields (ping_fields config_path timeout url proxy) (text "}}")
unfolding Loader.invoke_request Ping.ping_payload write_fields text json_escape
invoke_request-ping_payload config_path timeout url proxy = simp append_assoc

-- The request of a ping, read as a C string, is the method `ping` and the string fields `configPath`,
-- `url` and `proxy`, where these have no control character other than newline, return and tab, with the
-- timeout before the second of them in decimal; below 10 ^ 10, its digits are those of the timeout.
pub ping_payload-read :
    (config_path : Text) (timeout : ℕ) (url proxy : Text)
    → Printable config_path
    → Printable url
    → Printable proxy
    → timeout < 10 ^ 10
    → (read_fields (keys_of (ping_fields config_path timeout url proxy)) (
          c_str
            (Loader.invoke_request (text "ping") (Ping.ping_payload config_path timeout url proxy)))
        ≡ some (text "ping" ∷ config_path ∷ url ∷ proxy ∷ [], text "}}"))
      × (digits_from 0 (decimal timeout) ≡ timeout)
unfolding text has_bare_control decimal
ping_payload-read config_path timeout url proxy hc hu hp h = (
  ap (λ s. read_fields (keys_of (ping_fields config_path timeout url proxy)) (c_str s))
        (invoke_request-ping_payload config_path timeout url proxy)
      ∙ read_fields-c_str (ping_fields config_path timeout url proxy) (text "}}")
          (
            no_nul_sound (text "{\"apiVersion\":1,\"method\":\"") refl,
            (
              no_nul_sound (text ",\"payload\":{\"configPath\":\"") refl,
              (
                All-append NotNul (text ",\"timeout\":") _
                    (no_nul_sound (text ",\"timeout\":") refl)
                    (All-append NotNul (decimal timeout) _ (digits_onto-NotNul 10 timeout [] tt)
                      (no_nul_sound (text ",\"url\":\"") refl)),
                (no_nul_sound (text ",\"proxy\":\"") refl, tt),
              ),
            ),
          )
          (no_nul_sound (text "}}") refl) (refl, (hc, (hu, (hp, tt)))),
  digits_from-decimal timeout h,
)
