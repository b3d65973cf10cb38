-- ===== src/Behaviour/Transport.antt =====
-- What the cores get to read: the requests that the bridge writes, read back field by field.
pub mod Fields
pub mod PingRequest
use hey.Prelude.{
  ℕ, ◌≡◌, refl, ◌∙◌, ap, List, [], ◌∷◌, ◌++◌, Bool, true, false, not, append_assoc, ◌&&◌, Option,
  none, some, arith, ltb, leb, if◌then◌else◌, length, drop, All, drop-length-append, ◌==◌, ==-refl,
}
use hey.Codec.Text.{Text, text, c_str, starts_with}
use hey.Codec.Base64.{base64_encode, base64_decode}
use hey.Codec.Base64.Groups.{IsByte}
use hey.Codec.Base64.RoundTrip.{base64_decode-base64_encode}
use hey.Codec.Json.{quote, escape, json_escape}
use hey.Codec.Json.Scan.{scan, is_bare_control, has_bare_control, scan-json_escape}
use hey.Singbox
use hey.Query
use hey.Xray
use hey.Loader.Xray as Loader
use hey.Behaviour.Transport.Fields.{
  write_fields, read_fields, keys_of, values_of, Printable, read_fields-base64, read_fields-c_str,
  bytes_sound, no_nul_sound,
}

-- Decoded from base64, the request of `singboxStart` is the two string fields `basePath` and `config`
-- with the work directory and the configuration, where both are bytes without a control character
-- other than newline, return and tab.
pub start_request-read :
    (work_dir config : Text)
    → All IsByte work_dir
    → All IsByte config
    → Printable work_dir
    → Printable config
    → read_fields
        (text "{\"basePath\":\"" ∷ text ",\"config\":\"" ∷ [])
        (base64_decode (base64_encode (Singbox.start_request work_dir config)))
      ≡ some (work_dir ∷ config ∷ [], text "}")
unfolding Singbox.start_request write_fields text
start_request-read work_dir config hw hc pw pc =
    read_fields-base64 ((text "{\"basePath\":\"", work_dir) ∷ (text ",\"config\":\"", config) ∷ [])
      (text "}")
      (bytes_sound (text "{\"basePath\":\"") refl, (bytes_sound (text ",\"config\":\"") refl, tt))
      (hw, (hc, tt)) (bytes_sound (text "}") refl) (pw, (pc, tt))

-- Decoded from base64, the request of `countGeoData` is the three string fields `datDir`, `name` and
-- `geoType` with the texts given, where these are bytes without a control character other than newline,
-- return and tab.
pub count_request-read :
    (dat_dir name geo_type : Text)
    → All IsByte dat_dir
    → All IsByte name
    → All IsByte geo_type
    → Printable dat_dir
    → Printable name
    → Printable geo_type
    → read_fields
        (text "{\"datDir\":\"" ∷ text ",\"name\":\"" ∷ text ",\"geoType\":\"" ∷ [])
        (base64_decode (base64_encode (Query.count_request dat_dir name geo_type)))
      ≡ some (dat_dir ∷ name ∷ geo_type ∷ [], text "}")
unfolding Query.count_request write_fields text
count_request-read dat_dir name geo_type hd hn hg pd pn pg =
    read_fields-base64
      ((text "{\"datDir\":\"", dat_dir)
        ∷ (text ",\"name\":\"", name)
        ∷ (text ",\"geoType\":\"", geo_type)
        ∷ [])
      (text "}")
      (
        bytes_sound (text "{\"datDir\":\"") refl,
        (bytes_sound (text ",\"name\":\"") refl, (bytes_sound (text ",\"geoType\":\"") refl, tt)),
      )
      (hd, (hn, (hg, tt))) (bytes_sound (text "}") refl) (pd, (pn, (pg, tt)))

-- Decoded from base64, the request of `testXrayConfig` is the two string fields `datDir` and
-- `configPath` with the texts given, where these are bytes without a control character other than
-- newline, return and tab.
pub test_request-read :
    (work_dir config_path : Text)
    → All IsByte work_dir
    → All IsByte config_path
    → Printable work_dir
    → Printable config_path
    → read_fields
        (text "{\"datDir\":\"" ∷ text ",\"configPath\":\"" ∷ [])
        (base64_decode (base64_encode (Query.test_request work_dir config_path)))
      ≡ some (work_dir ∷ config_path ∷ [], text "}")
unfolding Query.test_request write_fields text
test_request-read work_dir config_path hw hc pw pc =
    read_fields-base64
      ((text "{\"datDir\":\"", work_dir) ∷ (text ",\"configPath\":\"", config_path) ∷ []) (text "}")
      (bytes_sound (text "{\"datDir\":\"") refl, (bytes_sound (text ",\"configPath\":\"") refl, tt))
      (hw, (hc, tt)) (bytes_sound (text "}") refl) (pw, (pc, tt))

abbrev pub run_fields : Text → List (Text × Text)
run_fields config =
    (text "{\"apiVersion\":1,\"method\":\"", text "runXrayFromJson")
    ∷ (text ",\"payload\":{\"configJSON\":\"", config)
    ∷ []

invoke_request-run_payload :
    (config : Text)
    → Loader.invoke_request (text "runXrayFromJson") (Xray.run_payload config)
      ≡ write_fields (run_fields config) (text "}}")
unfolding Loader.invoke_request Xray.run_payload write_fields text json_escape
invoke_request-run_payload config = rw (append_assoc (json_escape config) (text "\"}") (text "}"))

-- The request by which `startXray` hands over a configuration, read as a C string, is the method and
-- the configuration in two string fields, where the configuration has no control character other than
-- newline, return and tab.
pub run_payload-read :
    (config : Text)
    → Printable config
    → read_fields
        (keys_of (run_fields config))
        (c_str (Loader.invoke_request (text "runXrayFromJson") (Xray.run_payload config)))
      ≡ some (text "runXrayFromJson" ∷ config ∷ [], text "}}")
unfolding text has_bare_control
run_payload-read config p =
    ap (λ s. read_fields (keys_of (run_fields config)) (c_str s))
      (invoke_request-run_payload config)
    ∙ read_fields-c_str (run_fields config) (text "}}")
        (
          no_nul_sound (text "{\"apiVersion\":1,\"method\":\"") refl,
          (no_nul_sound (text ",\"payload\":{\"configJSON\":\"") refl, tt),
        )
        (no_nul_sound (text "}}") refl) (refl, (p, tt))
