-- ===== src/Ping.antt =====
-- `CreatePingResult` and `PingOutbound` of entry/src/main/cpp/napi_init.cpp.
use hey.Prelude.{ℕ, List, [], ◌∷◌, ◌++◌, Bool, true, false, ◌||◌, not, none, some, ℤ, pos, negsuc}
use hey.Prelude.{suc, ltb, leb, if◌then◌else◌, is_empty, length, drop, ltb_ℤ}
use hey.Codec.Text.{Text, text, find_last_of}
use hey.Codec.Decimal.{decimal}
use hey.Codec.Json.{json_escape}
use hey.Codec.Response.{invoke_success, extract_delay, is_digit}
use hey.Bridge.State.{Env, Level}
use hey.Bridge.Monad.{M, success, failure, pure, ◌>>=◌, ◌>>◌}
use hey.Bridge.Calls.{log, write_text_file, get_string_arg, get_int_arg, arg}
use hey.Loader.Xray.{prepare_xray_asset_dir, invoke_xray}

pub record PingResult : Type 0 where
  pub ok : Bool
  pub delay_ms : ℤ
  pub message : Text

unfoldable pub create_ping_result : Bool → ℤ → Text → M PingResult
create_ping_result ok delay_ms message = do
  log (if ok then Level.info else Level.warn) message
  pure (record { ok = ok; delay_ms = delay_ms; message = message })

-- `return CreatePingResult(env, false, -1, message);`
unfoldable pub ping_failed : Text → M PingResult
ping_failed message = create_ping_result false (negsuc 0) message

-- The loop over the characters behind the last colon.
unfoldable pub digits_of : Text → Text
unfolding is_digit
digits_of [] = []
digits_of (c ∷ s) = let rest = digits_of s in if is_digit c then c ∷ rest else rest

unfoldable pub port_digits : Text → Text
unfolding digits_of
port_digits proxy = elim (find_last_of proxy b':') [
  | none ↦ []
  | some colon ↦ digits_of (drop (suc colon) proxy)
]

-- Pings through different ports write different files.
unfoldable pub config_file : Text → Text
unfolding port_digits
config_file proxy =
    if is_empty (port_digits proxy)
    then text "hey-ping-config.json"
    else text "hey-ping-" ++ (port_digits proxy ++ text ".json")

unfoldable pub ping_payload : Text → ℕ → Text → Text → Text
ping_payload config_path timeout url proxy =
    text "{\"configPath\":\""
    ++ (json_escape config_path
        ++ (text "\",\"timeout\":"
            ++ (decimal timeout
                ++ (text ",\"url\":\""
                    ++ (json_escape url
                        ++ (text "\",\"proxy\":\"" ++ (json_escape proxy ++ text "\"}")))))))

-- Ten seconds in place of a timeout that is not positive.
unfoldable pub timeout_or_default : ℤ → ℕ
timeout_or_default (pos n) = if ltb 0 n then n else 10
timeout_or_default (negsuc n) = 10

-- What is made of the response of the core.
unfoldable pub judge_ping : Text → M PingResult
judge_ping response =
    let (ok, err) = invoke_success response (text "") in
    let delay = extract_delay response in
    if not ok
    then ping_failed err
    else if ltb_ℤ delay (pos 0) || not (ltb_ℤ delay (pos 10000))
    then ping_failed (text "libXray ping returned no valid delay.")
    else create_ping_result true delay (text "libXray ping ok.")

module _ (env : Env) where
  -- `PingOutbound` behind its tests.
  unfoldable pub run_ping : Text → Text → Text → ℕ → Text → M PingResult
  run_ping config dat_dir url timeout proxy = do
    prepare_xray_asset_dir dat_dir
    let config_path = dat_dir ++ (text "/" ++ config_file proxy)
    written ← write_text_file env config_path config
    elim written [
      | failure message ↦ ping_failed message
      | success _ ↦ do
        invoked ← invoke_xray env (text "ping") (ping_payload config_path timeout url proxy)
        elim invoked [
          | failure message ↦ ping_failed message
          | success response ↦ judge_ping response
        ]
    ]

  unfoldable pub ping_outbound : List ℕ → M PingResult
  ping_outbound args =
      let config = get_string_arg env (arg args 0) in
      let dat_dir = get_string_arg env (arg args 1) in
      let url = get_string_arg env (arg args 2) in
      let timeout = get_int_arg env (arg args 3) in
      let proxy =
        if leb 5 (length args)
        then get_string_arg env (arg args 4)
        else text "socks5://127.0.0.1:18085" in
      if ltb (length args) 4
      then ping_failed (text "Missing ping arguments.")
      else if is_empty config
      then ping_failed (text "Ping config JSON is empty.")
      else if is_empty dat_dir
      then ping_failed (text "Ping requires a data directory.")
      else if is_empty url
      then ping_failed (text "Ping requires a test URL.")
      else run_ping config dat_dir url (timeout_or_default timeout) proxy
