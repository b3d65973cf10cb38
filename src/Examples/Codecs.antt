-- ===== src/Examples/Codecs.antt =====
-- The theorems on the codecs at concrete inputs.
use hey.Prelude.{◌≡◌, refl, [], ◌∷◌, ◌++◌, false, none, some, pos, if◌then◌else◌, arith}
use hey.Codec.Text.{text, find, starts_with, contains}
use hey.Codec.Base64.{base64_encode, base64_decode}
use hey.Codec.Base64.Groups.{groups, base64_encode-groups}
use hey.Codec.Base64.RoundTrip.{base64_decode-base64_encode}
use hey.Codec.Json.{quote, escape, json_escape}
use hey.Codec.Json.Scan.{scan, has_bare_control, scan-json_escape}
use hey.Codec.Decimal.{decimal, digits_onto}
use hey.Codec.Response.{extract_delay, number_token, is_digit}
use hey.Codec.Delay.{extract_delay-decimal}
use hey.Codec.Response.{invoke_success}
use hey.Codec.Message.{shown, invoke_success-shown}
use hey.Behaviour.PingFiles.{config_file-proxy_at}
use hey.Codec.Text.{find_last_of}
use hey.Ping.{config_file, port_digits, digits_of}
use hey.Examples.{hey_bytes, line, sample_port, failed_response}

base64_decode-base64_encode_example : base64_decode (base64_encode hey_bytes) ≡ hey_bytes
base64_decode-base64_encode_example =
    base64_decode-base64_encode hey_bytes
      (omega arith, (omega arith, (omega arith, (omega arith, tt))))

base64_encode-groups_example : base64_encode hey_bytes ≡ groups hey_bytes
base64_encode-groups_example =
    base64_encode-groups hey_bytes (omega arith, (omega arith, (omega arith, (omega arith, tt))))

scan-json_escape_example :
    scan false (json_escape line ++ (quote ∷ 125 ∷ []))
    ≡ (if has_bare_control line then none else some (line, 125 ∷ []))
scan-json_escape_example = scan-json_escape line (125 ∷ [])

extract_delay-decimal_example : extract_delay (text "{\"delay\": 42,\"success\":true}") ≡ pos 42
unfolding find starts_with number_token is_digit text decimal digits_onto
extract_delay-decimal_example =
    extract_delay-decimal (text "{\"delay\": 42,\"success\":true}") (text ",\"success\":true}") 1 1
      42 refl refl refl (omega arith)

config_file-proxy_at_example : sample_port ≡ sample_port
unfolding config_file port_digits digits_of find_last_of text is_digit decimal digits_onto
config_file-proxy_at_example =
    config_file-proxy_at (text "socks5://127.0.0.1") (text "socks5://localhost") sample_port
      sample_port (omega arith) (omega arith) refl

invoke_success-shown_example :
    invoke_success failed_response [] ≡ (false, shown (97 ∷ 34 ∷ 98 ∷ []))
unfolding find starts_with contains text json_escape escape
invoke_success-shown_example =
    invoke_success-shown failed_response [] (97 ∷ 34 ∷ 98 ∷ []) [] 0 refl refl refl refl
