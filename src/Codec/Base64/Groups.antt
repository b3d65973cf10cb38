-- ===== src/Codec/Base64/Groups.antt =====
-- `base64_encode` against the encoding of RFC 4648: three bytes give four symbols of six bits each.
use hey.Prelude.{ℕ, suc, ◌+◌, ◌*◌, ◌/◌, ◌%◌, ◌^◌, ◌<◌, ◌≡◌, refl, [], ◌∷◌, ◌++◌}
use hey.Prelude.{arith, All, get_or, append_assoc, append-nil, length, length-append, ◌∙◌, sym, ap}
use hey.Codec.Text.{Text}
use hey.Codec.Base64.{base64_table, symbol, shift_in, encode_loop, pad, finish, base64_encode}

abbrev pub IsByte : ℕ → Type 0
IsByte b = b < 256

-- The symbol of a six-bit number.
unfoldable pub letter : ℕ → ℕ
unfolding base64_table
letter n = get_or base64_table n 0

-- The four symbols of three bytes.
abbrev pub quad : ℕ → ℕ → ℕ → Text
quad a b c =
    letter (a / 4)
    ∷ letter (a % 4 * 16 + b / 16)
    ∷ letter (b % 16 * 4 + c / 64)
    ∷ letter (c % 64)
    ∷ []

unfoldable pub groups : Text → Text
groups [] = []
groups (a ∷ []) = letter (a / 4) ∷ letter (a % 4 * 16) ∷ b'=' ∷ b'=' ∷ []
groups (a ∷ b ∷ []) =
    letter (a / 4) ∷ letter (a % 4 * 16 + b / 16) ∷ letter (b % 16 * 4) ∷ b'=' ∷ []
groups (a ∷ b ∷ c ∷ rest) = quad a b c ++ groups rest

symbol_of : (value shift n : ℕ) → value / 2 ^ shift % 64 ≡ n → symbol value shift ≡ letter n
unfolding symbol letter
symbol_of value shift n e = rw e

-- One round of `encode_loop` for each number of bits held. `r` is what the bits held are.
first_byte :
    (a value : ℕ) (input out : Text)
    → a < 256
    → encode_loop (a ∷ input) value 0 out
      ≡ encode_loop input (shift_in 8 value a) 2 (out ++ (letter (a / 4) ∷ []))
unfolding encode_loop
first_byte a value input out h = rw (symbol_of (shift_in 8 value a) 2 (a / 4) (omega arith))

second_byte :
    (b value r : ℕ) (input out : Text)
    → b < 256
    → value % 4 ≡ r
    → encode_loop (b ∷ input) value 2 out
      ≡ encode_loop input (shift_in 8 value b) 4 (out ++ (letter (r * 16 + b / 16) ∷ []))
unfolding encode_loop
second_byte b value r input out h e =
    rw (symbol_of (shift_in 8 value b) 4 (r * 16 + b / 16) (omega arith))

third_byte :
    (c value r : ℕ) (input out : Text)
    → c < 256
    → value % 16 ≡ r
    → encode_loop (c ∷ input) value 4 out
      ≡ encode_loop input
          (shift_in 8 value c)
          0
          ((out ++ (letter (r * 4 + c / 64) ∷ [])) ++ (letter (c % 64) ∷ []))
unfolding encode_loop
third_byte c value r input out h e = rw (
  symbol_of (shift_in 8 value c) 6 (r * 4 + c / 64) (omega arith),
  symbol_of (shift_in 8 value c) 0 (c % 64) (omega arith),
)

pad_none : (n : ℕ) (out : Text) → length out % 4 ≡ 0 → pad (suc n) out ≡ out
unfolding pad
pad_none n out e = ground arith

pad_one : (n : ℕ) (out : Text) → length out % 4 ≡ 3 → pad (suc (suc n)) out ≡ out ++ (b'=' ∷ [])
unfolding pad
pad_one n out e = ground (arith, length-append out (b'=' ∷ []))

pad_two : (out : Text) → length out % 4 ≡ 2 → pad 3 out ≡ (out ++ (b'=' ∷ [])) ++ (b'=' ∷ [])
unfolding pad
pad_two out e =
    ground (arith, length-append out (b'=' ∷ []), length-append (out ++ (b'=' ∷ [])) (b'=' ∷ []))

finish_two_held :
    (value r : ℕ) (out : Text)
    → value % 4 ≡ r
    → length out % 4 ≡ 1
    → finish (value, 2, out) ≡ out ++ (letter (r * 16) ∷ b'=' ∷ b'=' ∷ [])
unfolding finish
finish_two_held value r out e l = rw (symbol_of (value * 2 ^ 8 % 2 ^ 32) 4 (r * 16) (omega arith)) (
    rw
      (pad_two (out ++ (letter (r * 16) ∷ []))
        (omega (arith, length-append out (letter (r * 16) ∷ []))))
      (simp append_assoc))

finish_four_held :
    (value r : ℕ) (out : Text)
    → value % 16 ≡ r
    → length out % 4 ≡ 2
    → finish (value, 4, out) ≡ out ++ (letter (r * 4) ∷ b'=' ∷ [])
unfolding finish
finish_four_held value r out e l = rw (symbol_of (value * 2 ^ 8 % 2 ^ 32) 6 (r * 4) (omega arith)) (
    rw
      (pad_one 1 (out ++ (letter (r * 4) ∷ []))
        (omega (arith, length-append out (letter (r * 4) ∷ []))))
      (simp append_assoc))

-- One group, with the accumulator named.
module _ (a b c value : ℕ) (out : Text) (ha : a < 256) (hb : b < 256) (hc : c < 256) where
  after_two :
      (input : Text)
      → encode_loop (a ∷ b ∷ input) value 0 out
        ≡ encode_loop input
            (shift_in 8 (shift_in 8 value a) b)
            4
            (out ++ (letter (a / 4) ∷ letter (a % 4 * 16 + b / 16) ∷ []))
  after_two input =
      first_byte a value (b ∷ input) out ha
      ∙ second_byte b (shift_in 8 value a) (a % 4) input (out ++ (letter (a / 4) ∷ [])) hb
          (omega arith)
      ∙ simp append_assoc

  after_three :
      (input : Text)
      → encode_loop (a ∷ b ∷ c ∷ input) value 0 out
        ≡ encode_loop input (shift_in 8 (shift_in 8 (shift_in 8 value a) b) c) 0 (out ++ quad a b c)
  after_three input =
      after_two (c ∷ input)
      ∙ third_byte c (shift_in 8 (shift_in 8 value a) b) (b % 16) input _ hc (omega arith)
      ∙ simp append_assoc

encode_loop_end : (value held : ℕ) (out : Text) → encode_loop [] value held out ≡ (value, held, out)
unfolding encode_loop
encode_loop_end value held out = refl

finish-groups :
    (input : Text) (value : ℕ) (out : Text)
    → All IsByte input
    → length out % 4 ≡ 0
    → finish (encode_loop input value 0 out) ≡ out ++ groups input
unfolding groups
finish-groups [] value out h e =
    unfold encode_loop finish in (pad_none 2 out e ∙ sym (append-nil out))
finish-groups (a ∷ []) value out (ha, _) e =
    ap finish (first_byte a value [] out ha ∙ encode_loop_end _ _ _)
    ∙ finish_two_held (shift_in 8 value a) (a % 4) _ (omega arith)
        (omega (arith, length-append out (letter (a / 4) ∷ [])))
    ∙ simp append_assoc
finish-groups (a ∷ b ∷ []) value out (ha, (hb, _)) e =
    ap finish (after_two a b 0 value out ha hb (omega arith) [] ∙ encode_loop_end _ _ _)
    ∙ finish_four_held (shift_in 8 (shift_in 8 value a) b) (b % 16) _ (omega arith)
        (omega (arith, length-append out (letter (a / 4) ∷ letter (a % 4 * 16 + b / 16) ∷ [])))
    ∙ simp append_assoc
finish-groups (a ∷ b ∷ c ∷ rest) value out (ha, (hb, (hc, h))) e =
    ap finish (after_three a b c value out ha hb hc rest)
    ∙ finish-groups rest _ (out ++ quad a b c) h (omega (arith, length-append out (quad a b c)))
    ∙ simp append_assoc

-- The loop of `Base64Encode` with its bit counter writes, of a string of bytes, the groups of four
-- symbols of RFC 4648, padded with `=`.
pub base64_encode-groups : (input : Text) → All IsByte input → base64_encode input ≡ groups input
unfolding base64_encode
base64_encode-groups input h = finish-groups input 0 [] h refl
