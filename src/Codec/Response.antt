-- ===== src/Codec/Response.antt =====
-- `InvokeSuccess`, `ResponseOk` and `ExtractDelay` of entry/src/main/cpp/napi_init.cpp: how the
-- answers of the cores are read. An index into a response stands as the text behind it.
use hey.Prelude.{
  ℕ, zero, suc, ◌+◌, ◌-◌, ◌*◌, ◌^◌, [], ◌∷◌, ◌++◌, Bool, true, false, ◌||◌, ◌&&◌, none, some,
}
use hey.Prelude.{◌==◌, leb, ltb, if◌then◌else◌, take, drop, is_empty, ℤ, pos, negsuc}
use hey.Codec.Text.{Text, text, find, contains}
use hey.Codec.Base64.{base64_decode}

abbrev pub success_key : Text
success_key = text "\"success\":true"

abbrev pub error_key : Text
error_key = text "\"error\":\""

-- `response.substr(start, end - start)` up to the next quote, or to the end where there is none.
unfoldable pub up_to_quote : Text → Text
up_to_quote s = elim (find s (b'"' ∷ [])) [ none ↦ s | some n ↦ take n s ]

-- The result and `err` after the call, which keeps its value where nothing assigns it.
unfoldable pub invoke_success : Text → Text → Bool × Text
unfolding up_to_quote contains
invoke_success response err =
    let err' : Text = elim (find response error_key) [
      | none ↦ err
      | some key ↦ up_to_quote (drop (key + 9) response)
    ] in
    if contains response success_key
    then (true, err)
    else (false, if is_empty err' then text "libXray call failed." else err')

-- The result and `message` after the call.
unfoldable pub response_ok : Text → Bool × Text
unfolding up_to_quote contains base64_decode
response_ok base64_response =
    let decoded = base64_decode base64_response in
    if is_empty decoded
    then (false, text "Empty libXray response.")
    else if contains decoded success_key
    then (true, text "libXray response: " ++ decoded)
    else (
      false,
      elim (find decoded error_key) [
        | none ↦ decoded
        | some key ↦ up_to_quote (drop (key + 9) decoded)
      ],
    )

abbrev pub delay_key : Text
delay_key = text "\"delay\":"

unfoldable pub is_digit : ℕ → Bool
is_digit c = leb b'0' c && leb c b'9'

-- `while (response[start] == ' ') start++`
unfoldable pub skip_spaces : Text → Text
skip_spaces [] = []
skip_spaces (c ∷ s) = let rest = skip_spaces s in if c == b' ' then rest else c ∷ s

-- The digits and dashes from `start` up to `end`.
unfoldable pub number_token : Text → Text
unfolding is_digit
number_token [] = []
number_token (c ∷ s) = let rest = number_token s in if is_digit c || c == b'-' then c ∷ rest else []

-- The value of the digits at the front.
unfoldable pub digits_from : ℕ → Text → ℕ
unfolding is_digit
digits_from acc [] = acc
digits_from acc (c ∷ s) = elim (is_digit c) [
  | true ↦ digits_from (acc * 10 + (c - b'0')) s
  | false ↦ acc
]

-- The value of `-n` and of `n` as `strtoll` returns them, within `long long`.
unfoldable pub negated : ℕ → ℤ
negated zero = pos 0
negated (suc n) = negsuc (if ltb n (2 ^ 63) then n else 2 ^ 63 - 1)

unfoldable pub clipped : ℕ → ℤ
clipped n = pos (if ltb n (2 ^ 63) then n else 2 ^ 63 - 1)

-- `std::strtoll(token, nullptr, 10)` on a token of digits and dashes.
unfoldable pub strtoll : Text → ℤ
unfolding digits_from negated clipped
strtoll [] = pos 0
strtoll (c ∷ s) = if c == b'-' then negated (digits_from 0 s) else clipped (digits_from 0 (c ∷ s))

unfoldable pub extract_delay : Text → ℤ
unfolding skip_spaces number_token strtoll
extract_delay response = elim (find response delay_key) [
  | none ↦ negsuc 0
  | some key ↦
      let token = number_token (skip_spaces (drop (key + 8) response)) in
      if is_empty token then negsuc 0 else strtoll token
]
