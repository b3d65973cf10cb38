-- ===== src/Behaviour/PingFiles.antt =====
-- The file that a ping writes its configuration to.
use hey.Prelude.{
  ℕ, zero, suc, ◌+◌, ◌/◌, ◌%◌, ◌^◌, ◌<◌, ◌≡◌, refl, sym, ap, ◌∙◌, [], ◌∷◌, ◌++◌, true, Option, none,
  some, arith, All, is_empty, if◌then◌else◌, drop, length, length-append,
}
use hey.Codec.Text.{Text, text, find_last_of}
use hey.Codec.Response.{is_digit, digits_from}
use hey.Codec.Decimal.{digits_onto, decimal}
use hey.Codec.Delay.{digits_from-decimal}
use hey.Ping.{digits_of, port_digits, config_file}

abbrev IsDigit : ℕ → Type 0
IsDigit c = is_digit c ≡ true

digits_of-IsDigit : (s : Text) → All IsDigit (digits_of s)
unfolding digits_of
digits_of-IsDigit [] = tt
digits_of-IsDigit (c ∷ s) = ground (arith, digits_of-IsDigit s)

port_digits-IsDigit : (proxy : Text) → All IsDigit (port_digits proxy)
unfolding port_digits
port_digits-IsDigit proxy = by_colon (find_last_of proxy b':')
  where
    by_colon :
        (o : Option ℕ)
        → All IsDigit (elim o [ none ↦ [] | some colon ↦ digits_of (drop (suc colon) proxy) ])
    by_colon none = tt
    by_colon (some colon) = digits_of-IsDigit (drop (suc colon) proxy)

abbrev file_of : Text → Text
file_of d =
    if is_empty d then text "hey-ping-config.json" else text "hey-ping-" ++ (d ++ text ".json")

take-append : (xs ys zs us : Text) → xs ++ zs ≡ ys ++ us → length xs ≡ length ys → xs ≡ ys
take-append [] [] zs us e l = refl
take-append [] (y ∷ ys) zs us e l = absurd (omega arith)
take-append (x ∷ xs) [] zs us e l = absurd (omega arith)
take-append (x ∷ xs) (y ∷ ys) zs us e l = ground (arith, take-append xs ys zs us)

cancel_end : (xs ys zs : Text) → xs ++ zs ≡ ys ++ zs → xs ≡ ys
cancel_end xs ys zs e =
    take-append xs ys zs zs e (omega (arith, length-append xs zs, length-append ys zs, ap length e))

file_of_inj : (d e : Text) → All IsDigit d → All IsDigit e → file_of d ≡ file_of e → d ≡ e
unfolding text is_digit
file_of_inj [] [] h k p = refl
file_of_inj [] (c ∷ e) h (k, ks) p = ground arith
file_of_inj (c ∷ d) [] (h, hs) k p = ground arith
file_of_inj (c ∷ d) (x ∷ e) h k p = cancel_end (c ∷ d) (x ∷ e) (text ".json") (ap (drop 9) p)

config_file_inj :
    (proxy other : Text)
    → config_file proxy ≡ config_file other
    → port_digits proxy ≡ port_digits other
unfolding config_file
config_file_inj proxy other p =
    file_of_inj (port_digits proxy) (port_digits other) (port_digits-IsDigit proxy)
      (port_digits-IsDigit other) p

digits_onto-IsDigit :
    (fuel n : ℕ) (rest : Text) → All IsDigit rest → All IsDigit (digits_onto fuel n rest)
unfolding digits_onto is_digit
digits_onto-IsDigit zero n rest h = h
digits_onto-IsDigit (suc fuel) n rest h =
    let again = digits_onto-IsDigit fuel (n / 10) ((b'0' + n % 10) ∷ rest) (ground arith, h) in
    ground (arith, again)

digits_of-digits : (s : Text) → All IsDigit s → digits_of s ≡ s
unfolding digits_of
digits_of-digits [] h = refl
digits_of-digits (c ∷ s) (d, h) = rw (d, digits_of-digits s h)

no_colon : (s : Text) → All IsDigit s → find_last_of s b':' ≡ none
unfolding find_last_of is_digit
no_colon [] h = refl
no_colon (c ∷ s) (d, h) = rw (no_colon s h) (ground arith)

last_colon :
    (host s : Text) → All IsDigit s → find_last_of (host ++ (b':' ∷ s)) b':' ≡ some (length host)
unfolding find_last_of
last_colon [] s h = rw (no_colon s h)
last_colon (c ∷ host) s h = rw (last_colon host s h)

behind_colon : (host s : Text) → drop (suc (length host)) (host ++ (b':' ∷ s)) ≡ s
behind_colon [] s = refl
behind_colon (c ∷ host) s = behind_colon host s

decimal-IsDigit : (n : ℕ) → All IsDigit (decimal n)
unfolding decimal
decimal-IsDigit n = digits_onto-IsDigit 10 n [] tt

-- The proxy of a local port, as the app writes it.
abbrev pub proxy_at : Text → ℕ → Text
proxy_at host port = host ++ (b':' ∷ decimal port)

after_colon :
    (proxy : Text) (colon : ℕ)
    → find_last_of proxy b':' ≡ some colon
    → port_digits proxy ≡ digits_of (drop (suc colon) proxy)
unfolding port_digits
after_colon proxy colon e = rw (e, port_digits)

port_digits-proxy_at : (host : Text) (port : ℕ) → port_digits (proxy_at host port) ≡ decimal port
port_digits-proxy_at host port =
    after_colon (proxy_at host port) (length host)
      (last_colon host (decimal port) (decimal-IsDigit port))
    ∙ ap digits_of (behind_colon host (decimal port))
    ∙ digits_of-digits (decimal port) (decimal-IsDigit port)

-- Two pings write the same file only if the ports of their proxies are the same, whatever hosts stand
-- before the colon, where each port is a number of at most ten digits in decimal.
pub config_file-proxy_at :
    (host other : Text) (port port' : ℕ)
    → port < 10 ^ 10
    → port' < 10 ^ 10
    → config_file (proxy_at host port) ≡ config_file (proxy_at other port')
    → port ≡ port'
config_file-proxy_at host other port port' h h' e =
    sym (digits_from-decimal port h)
    ∙ ap (digits_from 0) (
        sym (port_digits-proxy_at host port)
        ∙ config_file_inj (proxy_at host port) (proxy_at other port') e
        ∙ port_digits-proxy_at other port')
    ∙ digits_from-decimal port' h'
