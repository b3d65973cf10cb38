-- ===== src/Codec/Base64/RoundTrip.antt =====
-- `base64_decode` reads back what `base64_encode` wrote.
use hey.Prelude.{
  ℕ, ◌+◌, ◌*◌, ◌/◌, ◌%◌, ◌^◌, ◌<◌, ◌≡◌, refl, [], ◌∷◌, ◌++◌, Bool, true, false, none, some,
}
use hey.Prelude.{
  arith, ◌==◌, All, get_or, append_assoc, append-nil, ◌∙◌, sym, all_below, all_below_sound, ◌&&◌,
  not,
}
use hey.Codec.Text.{Text}
use hey.Codec.Base64.{values, decode_loop, base64_decode, base64_encode, shift_in}
use hey.Codec.Base64.Groups.{IsByte, letter, groups, base64_encode-groups}

-- The symbol of `n` is not the padding, and its entry of the decoder's table is `n`.
reads_back : ℕ → Bool
reads_back n =
    not (letter n == b'=')
    && elim (get_or values (letter n) none) [ none ↦ false | some d ↦ d == n ]

reads_back_table : all_below 64 reads_back ≡ true
unfolding reads_back letter values
reads_back_table = refl

letter_facts :
    (n : ℕ) → n < 64 → ((letter n == b'=') ≡ false) × (get_or values (letter n) none ≡ some n)
unfolding reads_back
letter_facts n h = ground (arith, all_below_sound 64 reads_back n reads_back_table h)

-- One round of `decode_loop` on the symbol of `n`, for each number of bits held.
module _ (n value r : ℕ) (input out : Text) (h : n < 64) where
  round_zero :
      decode_loop (letter n ∷ input) value 0 out ≡ decode_loop input (shift_in 6 value n) 6 out
  unfolding decode_loop
  round_zero = let (a, b) = letter_facts n h in rw (a, decode_loop) (rw (b, decode_loop) refl)

  round_six :
      value % 64 ≡ r
      → decode_loop (letter n ∷ input) value 6 out
        ≡ decode_loop input (shift_in 6 value n) 4 (out ++ ((r * 4 + n / 16) ∷ []))
  unfolding decode_loop
  round_six e =
      let (a, b) = letter_facts n h in
      let byte : shift_in 6 value n / 2 ^ 4 % 256 ≡ r * 4 + n / 16 = omega arith in
      rw (a, decode_loop) (rw (b, decode_loop) (rw byte))

  round_four :
      value % 16 ≡ r
      → decode_loop (letter n ∷ input) value 4 out
        ≡ decode_loop input (shift_in 6 value n) 2 (out ++ ((r * 16 + n / 4) ∷ []))
  unfolding decode_loop
  round_four e =
      let (a, b) = letter_facts n h in
      let byte : shift_in 6 value n / 2 ^ 2 % 256 ≡ r * 16 + n / 4 = omega arith in
      rw (a, decode_loop) (rw (b, decode_loop) (rw byte))

  round_two :
      value % 4 ≡ r
      → decode_loop (letter n ∷ input) value 2 out
        ≡ decode_loop input (shift_in 6 value n) 0 (out ++ ((r * 64 + n) ∷ []))
  unfolding decode_loop
  round_two e =
      let (a, b) = letter_facts n h in
      let byte : shift_in 6 value n / 2 ^ 0 % 256 ≡ r * 64 + n = omega arith in
      rw (a, decode_loop) (rw (b, decode_loop) (rw byte))

round_end : (value held : ℕ) (input out : Text) → decode_loop (b'=' ∷ input) value held out ≡ out
unfolding decode_loop
round_end value held input out = refl

-- The first byte of a group, from its first two symbols.
module _ (a n value : ℕ) (out : Text) (ha : a < 256) (hn : n < 16) where
  first :
      (input : Text)
      → decode_loop (letter (a / 4) ∷ letter (a % 4 * 16 + n) ∷ input) value 0 out
        ≡ decode_loop input
            (shift_in 6 (shift_in 6 value (a / 4)) (a % 4 * 16 + n))
            4
            (out ++ (a ∷ []))
  first input =
      round_zero (a / 4) value 0 (letter (a % 4 * 16 + n) ∷ input) out (omega arith)
      ∙ round_six (a % 4 * 16 + n) (shift_in 6 value (a / 4)) (a / 4) input out (omega arith)
          (omega arith)
      ∙ rw (let e : a / 4 * 4 + (a % 4 * 16 + n) / 16 ≡ a = omega arith in e)

  -- The first two, from three symbols.
  second :
      (b m : ℕ) (input : Text)
      → n ≡ b / 16
      → b < 256
      → m < 4
      → decode_loop
          (letter (a / 4) ∷ letter (a % 4 * 16 + n) ∷ letter (b % 16 * 4 + m) ∷ input)
          value
          0
          out
        ≡ decode_loop input
            (shift_in 6 (shift_in 6 (shift_in 6 value (a / 4)) (a % 4 * 16 + n)) (b % 16 * 4 + m))
            2
            ((out ++ (a ∷ [])) ++ (b ∷ []))
  second b m input e hb hm =
      first (letter (b % 16 * 4 + m) ∷ input)
      ∙ round_four (b % 16 * 4 + m) (shift_in 6 (shift_in 6 value (a / 4)) (a % 4 * 16 + n)) n input
          (out ++ (a ∷ [])) (omega arith) (omega arith)
      ∙ rw (let e' : n * 16 + (b % 16 * 4 + m) / 4 ≡ b = omega arith in e')

decode_loop-groups :
    (input : Text) (value : ℕ) (out : Text)
    → All IsByte input
    → decode_loop (groups input) value 0 out ≡ out ++ input
unfolding groups
decode_loop-groups [] value out h = unfold decode_loop in sym (append-nil out)
decode_loop-groups (a ∷ []) value out (ha, _) =
    let e : a % 4 * 16 ≡ a % 4 * 16 + 0 = omega arith in
    rw e (first a 0 value out ha (omega arith) (b'=' ∷ b'=' ∷ []) ∙ round_end _ _ _ _)
decode_loop-groups (a ∷ b ∷ []) value out (ha, (hb, _)) =
    let e : b % 16 * 4 ≡ b % 16 * 4 + 0 = omega arith in
    rw e (
      second a (b / 16) value out ha (omega arith) b 0 (b'=' ∷ []) refl hb (omega arith)
      ∙ round_end _ _ _ _
      ∙ simp append_assoc)
decode_loop-groups (a ∷ b ∷ c ∷ rest) value out (ha, (hb, (hc, h))) =
    let e : c / 64 * 64 + c % 64 ≡ c = omega arith in
    second a (b / 16) value out ha (omega arith) b (c / 64) (letter (c % 64) ∷ groups rest) refl hb
      (omega arith)
    ∙ round_two (c % 64) _ (c / 64) (groups rest) _ (omega arith) (omega arith)
    ∙ decode_loop-groups rest _ _ h
    ∙ rw e (simp append_assoc)

-- `Base64Decode` takes the encoding of a string of bytes back to that string.
pub base64_decode-base64_encode :
    (input : Text) → All IsByte input → base64_decode (base64_encode input) ≡ input
unfolding base64_decode
base64_decode-base64_encode input h =
    rw (base64_encode-groups input h) (decode_loop-groups input 0 [] h)
