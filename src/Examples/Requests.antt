-- ===== src/Examples/Requests.antt =====
-- The theorems on the requests that the cores read at concrete inputs.
use hey.Prelude.{◌≡◌, refl, [], ◌∷◌, some, arith}
use hey.Codec.Text.{text, c_str}
use hey.Codec.Base64.{base64_encode, base64_decode}
use hey.Codec.Json.Scan.{has_bare_control, is_bare_control}
use hey.Codec.Decimal.{decimal}
use hey.Loader.Xray as Loader
use hey.Xray
use hey.Singbox
use hey.Query
use hey.Ping
use hey.Behaviour.Transport.PingRequest.{ping_fields, ping_payload-read}
use hey.Codec.Response.{digits_from}
use hey.Ping.{config_file, port_digits, digits_of}
use hey.Behaviour.Transport.Fields.{read_fields, keys_of}
use hey.Behaviour.Transport.{
  run_fields, start_request-read, count_request-read, test_request-read, run_payload-read,
}
use hey.Examples.{hey_bytes, line}

start_request-read_example :
    read_fields
      (text "{\"basePath\":\"" ∷ text ",\"config\":\"" ∷ [])
      (base64_decode (base64_encode (Singbox.start_request hey_bytes line)))
    ≡ some (hey_bytes ∷ line ∷ [], text "}")
unfolding has_bare_control is_bare_control
start_request-read_example =
    start_request-read hey_bytes line (omega arith, (omega arith, (omega arith, (omega arith, tt))))
      (omega arith, (omega arith, (omega arith, (omega arith, tt)))) refl refl

count_request-read_example :
    read_fields
      (text "{\"datDir\":\"" ∷ text ",\"name\":\"" ∷ text ",\"geoType\":\"" ∷ [])
      (base64_decode (base64_encode (Query.count_request hey_bytes line [])))
    ≡ some (hey_bytes ∷ line ∷ [] ∷ [], text "}")
unfolding has_bare_control is_bare_control
count_request-read_example =
    count_request-read hey_bytes line []
      (omega arith, (omega arith, (omega arith, (omega arith, tt))))
      (omega arith, (omega arith, (omega arith, (omega arith, tt)))) tt refl refl refl

test_request-read_example :
    read_fields
      (text "{\"datDir\":\"" ∷ text ",\"configPath\":\"" ∷ [])
      (base64_decode (base64_encode (Query.test_request hey_bytes line)))
    ≡ some (hey_bytes ∷ line ∷ [], text "}")
unfolding has_bare_control is_bare_control
test_request-read_example =
    test_request-read hey_bytes line (omega arith, (omega arith, (omega arith, (omega arith, tt))))
      (omega arith, (omega arith, (omega arith, (omega arith, tt)))) refl refl

run_payload-read_example :
    read_fields
      (keys_of (run_fields line))
      (c_str (Loader.invoke_request (text "runXrayFromJson") (Xray.run_payload line)))
    ≡ some (text "runXrayFromJson" ∷ line ∷ [], text "}}")
unfolding has_bare_control is_bare_control
run_payload-read_example = run_payload-read line refl

ping_payload-read_example :
    (read_fields
        (keys_of (ping_fields hey_bytes 5 line hey_bytes))
        (c_str (Loader.invoke_request (text "ping") (Ping.ping_payload hey_bytes 5 line hey_bytes)))
      ≡ some (text "ping" ∷ hey_bytes ∷ line ∷ hey_bytes ∷ [], text "}}"))
    × (digits_from 0 (decimal 5) ≡ 5)
unfolding has_bare_control is_bare_control
ping_payload-read_example =
    ping_payload-read hey_bytes 5 line hey_bytes refl refl refl (omega arith)
