-- ===== src/Codec/Decimal.antt =====
-- A number as `std::ostream` prints it.
use hey.Prelude.{ℕ, zero, suc, ◌+◌, ◌/◌, ◌%◌, [], ◌∷◌, ltb, if◌then◌else◌}
use hey.Codec.Text.{Text}

-- The digits of `n` in front of `rest`, on fuel.
unfoldable pub digits_onto : ℕ → ℕ → Text → Text
digits_onto zero n rest = rest
digits_onto (suc fuel) n rest =
    let more = digits_onto fuel (n / 10) ((b'0' + n % 10) ∷ rest) in
    if ltb n 10 then (b'0' + n) ∷ rest else more

-- An `int32_t` has ten digits at most.
unfoldable pub decimal : ℕ → Text
unfolding digits_onto
decimal n = digits_onto 10 n []
