-- ===== src/Codec/Delay.antt =====
-- `ExtractDelay` on a response that holds a delay, against the digits that `std::ostream` prints.
use hey.Prelude.{
  ℕ, zero, suc, ◌+◌, ◌*◌, ◌/◌, ◌%◌, ◌<◌, ◌^◌, ◌≡◌, refl, ◌∙◌, ap, sym, [], ◌∷◌, ◌++◌, false, some,
  arith, ltb, drop, replicate, pos, is_empty,
}
use hey.Codec.Text.{Text, find}
use hey.Codec.Decimal.{digits_onto, decimal}
use hey.Codec.Response.{
  is_digit, skip_spaces, number_token, digits_from, clipped, strtoll, extract_delay, delay_key,
}
use hey.Prelude.{Bool-cases, inl, inr}

abbrev pow10 : ℕ → ℕ
pow10 zero = 1
pow10 (suc n) = 10 * pow10 n

number_token-digits_onto :
    (fuel n : ℕ) (rest : Text)
    → n < pow10 fuel
    → number_token (digits_onto fuel n rest) ≡ digits_onto fuel n (number_token rest)
unfolding digits_onto number_token is_digit
number_token-digits_onto zero n rest h = refl
number_token-digits_onto (suc fuel) n rest h =
    let again = number_token-digits_onto fuel (n / 10) ((b'0' + n % 10) ∷ rest) in
    ground (arith, again)

digits_from-digits_onto :
    (fuel n : ℕ) (rest : Text)
    → n < pow10 fuel
    → digits_from 0 (digits_onto fuel n rest) ≡ digits_from n rest
unfolding digits_onto digits_from is_digit
digits_from-digits_onto zero n rest h = ground arith
digits_from-digits_onto (suc fuel) n rest h =
    let again = digits_from-digits_onto fuel (n / 10) ((b'0' + n % 10) ∷ rest) in
    ground (arith, again)

-- The first digit.
digits_onto-head :
    (fuel n : ℕ) (rest : Text)
    → n < pow10 (suc fuel)
    → (d : ℕ) × (s : Text) × (d < 10) × (digits_onto (suc fuel) n rest ≡ (b'0' + d) ∷ s)
unfolding digits_onto
digits_onto-head zero n rest h = (n, rest, omega arith, ground arith)
digits_onto-head (suc fuel) n rest h = elim (Bool-cases (ltb n 10)) [
  | inl e ↦ (n, rest, ground arith, rw e)
  | inr e ↦
      let (d, s, lt, again) =
        digits_onto-head fuel (n / 10) ((b'0' + n % 10) ∷ rest) (ground arith) in
      (d, s, lt, rw e again)
]

-- Spaces are skipped up to the first digit.
skip_spaces-replicate :
    (spaces d : ℕ) (s : Text)
    → d < 10
    → skip_spaces (replicate spaces b' ' ++ ((b'0' + d) ∷ s)) ≡ (b'0' + d) ∷ s
unfolding skip_spaces
skip_spaces-replicate zero d s h = ground arith
skip_spaces-replicate (suc spaces) d s h = ground (arith, skip_spaces-replicate spaces d s h)

skip_spaces-decimal :
    (spaces n : ℕ) (rest : Text)
    → n < pow10 10
    → skip_spaces (replicate spaces b' ' ++ digits_onto 10 n rest) ≡ digits_onto 10 n rest
skip_spaces-decimal spaces n rest h =
    let (d, s, lt, e) = digits_onto-head 9 n rest h in rw (e, skip_spaces-replicate spaces d s lt)

strtoll-digit :
    (d : ℕ) (s : Text)
    → d < 10
    → strtoll ((b'0' + d) ∷ s) ≡ clipped (digits_from 0 ((b'0' + d) ∷ s))
unfolding strtoll
strtoll-digit d s h = ground arith

clipped-small : (n : ℕ) → n < pow10 10 → clipped n ≡ pos n
unfolding clipped
clipped-small n h = ground arith

digits_from-nil : (n : ℕ) → digits_from n [] ≡ n
unfolding digits_from
digits_from-nil n = refl

-- The digits that are printed are read back as the number.
pub digits_from-decimal : (n : ℕ) → n < 10 ^ 10 → digits_from 0 (decimal n) ≡ n
unfolding decimal
digits_from-decimal n h = digits_from-digits_onto 10 n [] h ∙ digits_from-nil n

strtoll-decimal : (n : ℕ) → n < pow10 10 → strtoll (digits_onto 10 n []) ≡ pos n
strtoll-decimal n h =
    let (d, s, lt, e) = digits_onto-head 9 n [] h in
    ap strtoll e
    ∙ strtoll-digit d s lt
    ∙ ap (λ t. clipped (digits_from 0 t)) (sym e)
    ∙ ap clipped (digits_from-digits_onto 10 n [] h ∙ digits_from-nil n)
    ∙ clipped-small n h

is_empty-decimal : (n : ℕ) → n < pow10 10 → is_empty (digits_onto 10 n []) ≡ false
is_empty-decimal n h = let (d, s, lt, e) = digits_onto-head 9 n [] h in ap is_empty e

digits_onto-append :
    (fuel n : ℕ) (s rest : Text) → digits_onto fuel n (s ++ rest) ≡ digits_onto fuel n s ++ rest
unfolding digits_onto
digits_onto-append zero n s rest = refl
digits_onto-append (suc fuel) n s rest =
    ground (arith, digits_onto-append fuel (n / 10) ((b'0' + n % 10) ∷ s) rest)

token :
    (spaces n : ℕ) (after : Text)
    → n < pow10 10
    → number_token after ≡ []
    → number_token (skip_spaces (replicate spaces b' ' ++ (decimal n ++ after)))
      ≡ digits_onto 10 n []
unfolding decimal
token spaces n after h stops =
    ap (λ t. number_token (skip_spaces (replicate spaces b' ' ++ t)))
      (sym (digits_onto-append 10 n [] after))
    ∙ ap number_token (skip_spaces-decimal spaces n after h)
    ∙ number_token-digits_onto 10 n after h
    ∙ ap (digits_onto 10 n) stops

-- Where the first `"delay":` of a response is followed by spaces and by a number of at most ten
-- digits, as a stream prints it, and then by no digit or dash, `ExtractDelay` returns that number.
pub extract_delay-decimal :
    (response after : Text) (key spaces n : ℕ)
    → find response delay_key ≡ some key
    → drop (key + 8) response ≡ replicate spaces b' ' ++ (decimal n ++ after)
    → number_token after ≡ []
    → n < 10 ^ 10
    → extract_delay response ≡ pos n
unfolding extract_delay
extract_delay-decimal response after key spaces n found here stops h =
    let read = ap (λ t. number_token (skip_spaces t)) here ∙ token spaces n after h stops in
    rw (found, read, is_empty-decimal n h, strtoll-decimal n h, extract_delay)
