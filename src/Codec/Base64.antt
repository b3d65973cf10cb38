-- ===== src/Codec/Base64.antt =====
-- `BASE64_TABLE`, `Base64Encode` and `Base64Decode` of entry/src/main/cpp/napi_init.cpp.
-- The `int value` is its 32-bit pattern, and `<<` drops the bits above it. The `int bits` counts
-- from -6 (encoder) or -8 (decoder): `held` is `bits + 6` or `bits + 8`, the bits not yet written.
-- `(value >> k) & 0x3F` reads bits k to k + 5, where the sign does not matter as k is at most 6.
pub mod Groups
pub mod RoundTrip
use hey.Prelude.{ℕ, zero, suc, ◌+◌, ◌-◌, ◌*◌, ◌/◌, ◌%◌, ◌^◌, List, [], ◌∷◌, ◌++◌}
use hey.Prelude.{true, false, Option, none, some, ltb, leb, ◌==◌, if◌then◌else◌}
use hey.Prelude.{length, get_or, set, replicate}
use hey.Codec.Text.{Text, text}

unfoldable pub base64_table : Text
unfolding text
base64_table = text "ABCDEFGHIJKLMNOPQRSTUVWXYZabcdefghijklmnopqrstuvwxyz0123456789+/"

-- `BASE64_TABLE[(value >> shift) & 0x3F]`
unfoldable pub symbol : ℕ → ℕ → ℕ
unfolding base64_table
symbol value shift = get_or base64_table (value / 2 ^ shift % 64) 0

-- `while (bits >= 0)`, on fuel: each round takes six of the bits held.
unfoldable pub emit : ℕ → ℕ → ℕ → Text → ℕ × Text
emit zero value held out = (held, out)
emit (suc fuel) value held out =
    let rest = emit fuel value (held - 6) (out ++ (symbol value (held - 6) ∷ [])) in
    if leb 6 held then rest else (held, out)

-- `value = (value << 8) + ch` and `value = (value << 6) + decoded`, on 32 bits.
abbrev pub shift_in : ℕ → ℕ → ℕ → ℕ
shift_in width value digit = (value * 2 ^ width % 2 ^ 32 + digit) % 2 ^ 32

unfoldable pub encode_loop : Text → ℕ → ℕ → Text → ℕ × ℕ × Text
unfolding emit
encode_loop [] value held out = (value, held, out)
encode_loop (ch ∷ input) value held out =
    let value' = shift_in 8 value ch in
    let (held', out') = emit (held + 8) value' (held + 8) out in encode_loop input value' held' out'

-- `while (output.size() % 4 != 0)`, at most three rounds.
unfoldable pub pad : ℕ → Text → Text
pad zero out = out
pad (suc fuel) out =
    let rest = pad fuel (out ++ (b'=' ∷ [])) in if length out % 4 == 0 then out else rest

-- What follows the loop: the bits left over give one more symbol, and `=` fills the group up.
unfoldable pub finish : ℕ × ℕ × Text → Text
unfolding pad
finish (value, held, out) =
    pad 3 (if ltb 0 held then out ++ (symbol (value * 2 ^ 8 % 2 ^ 32) (held + 2) ∷ []) else out)

unfoldable pub base64_encode : Text → Text
unfolding encode_loop finish
base64_encode input = finish (encode_loop input 0 0 [])

-- The first `n` rounds of the loop that fills `values`; `none` stands for -1.
unfoldable pub fill : ℕ → List (Option ℕ)
unfolding base64_table
fill zero = replicate 256 none
fill (suc index) = set (fill index) (get_or base64_table index 0) (some index)

unfoldable pub values : List (Option ℕ)
unfolding fill
values = fill 64

unfoldable pub decode_loop : Text → ℕ → ℕ → Text → Text
unfolding values
decode_loop [] value held out = out
decode_loop (ch ∷ input) value held out = elim (ch == b'=') [
  | true ↦ out
  | false ↦ elim (get_or values ch none) [
    | none ↦ decode_loop input value held out
    | some decoded ↦
        let value' = shift_in 6 value decoded in
        let held' = held + 6 in
        let ready = leb 8 held' in
        decode_loop input value' (if ready then held' - 8 else held')
          (if ready then out ++ ((value' / 2 ^ (held' - 8) % 256) ∷ []) else out)
  ]
]

unfoldable pub base64_decode : Text → Text
unfolding decode_loop
base64_decode input = decode_loop input 0 0 []
