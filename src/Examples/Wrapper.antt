-- ===== src/Examples/Wrapper.antt =====
-- The theorems on the sing-box wrapper at concrete inputs.
use hey.Prelude.{
  List, [], ◌∷◌, ◌++◌, true, false, Bool, none, some, ◌≡◌, refl, pos, arith, ◌==◌, ltb, All,
  is_some, if◌then◌else◌,
}
use hey.Codec.Text.{Text, text}
use hey.Codec.Base64.Groups.{IsByte, groups}
use hey.Codec.Json.{quote, backslash}
use hey.Bridge.State.{initial}
use hey.Bridge.Monad.{success}
use hey.Bridge.Keeps.{Ensures, no_stop}
use hey.Singbox.{judge_singbox_start, judge_singbox_stop}
use hey.Libsingbox
use hey.Libsingbox.{Packages, Request, fresh}
use hey.Libsingbox.Rules.{Ends}
use hey.Libsingbox.Service.{Ready}
use hey.Libsingbox.Requests.{serve_all-Ready, cgo_start_sing_box-waits, unused_core}
use hey.Libsingbox.Fd.{Hands, leaves_start, leaves_open, leaves_stop, cgo_set_tun_fd-open_tun}
use hey.Libsingbox.Quiet.{quoted}
use hey.Libsingbox.Answers.{Documented, member}
use hey.Libsingbox.InUse.{closes}
use hey.Libsingbox.Judge.{cgo_start_sing_box-judge, cgo_stop_sing_box-judge}

-- Every quote and backslash behind a backslash, and ASCII only.
abbrev plain_escape : Text → Text
plain_escape [] = []
plain_escape (c ∷ s) =
    let rest = plain_escape s in
    if c == quote
    then backslash ∷ quote ∷ rest
    else if c == backslash
    then backslash ∷ backslash ∷ rest
    else if ltb c 128
    then c ∷ rest
    else rest

plain_escape-bytes : (s : Text) → All IsByte (plain_escape s)
plain_escape-bytes [] = tt
plain_escape-bytes (c ∷ s) =
    let rest = plain_escape-bytes s in
    branches (c == quote) _ _ (λ e. (omega arith, (omega arith, rest)))
      (branches (c == backslash) _ _ (λ e. (omega arith, (omega arith, rest)))
        (branches (ltb c 128) _ _ (λ e. (ground arith, rest)) rest))
  where
    branches :
        (b : Bool) (x y : Text)
        → (b ≡ true → All IsByte x)
        → All IsByte y
        → All IsByte (if b then x else y)
    branches true x y h k = h refl
    branches false x y h k = k

plain_escape-quoted : (s : Text) → quoted false (plain_escape s) ≡ true
unfolding quoted
plain_escape-quoted [] = refl
plain_escape-quoted (c ∷ s) = let rest = plain_escape-quoted s in ground arith

-- Packages that do as their documents say, of which a start answers without an error; the second opens the
-- TUN in the start of a service.
abbrev plain : Packages
plain = record {
  marshal = λ r.
      text "{\"success\":"
      ++ ((if r.success then text "true" else text "false")
          ++ (member (text "data") plain_escape r.data_text
              ++ (member (text "err") plain_escape r.err ++ text "}")));
  unmarshal = λ raw. success (record { base_path = raw; config = raw });
  encode_to_string = groups;
  decode_string = λ s. success s;
  stack = λ es. [];
  version = text "1.12.25";
  setup = λ es base. Libsingbox.returned tt;
  new_service = λ es config. Libsingbox.returned 5;
  opens_tun = λ es svc. false;
  start = λ es svc tun. Libsingbox.returned tt;
  close = λ es svc. Libsingbox.failed (text "closed");
}

abbrev opening : Packages
opening = record plain { opens_tun = λ es svc. true }

plain-Documented : Documented plain
plain-Documented = record {
  escape = plain_escape;
  escape_bytes = plain_escape-bytes;
  escape_quotes = plain_escape-quoted;
  marshal = λ r. refl;
  encode = λ raw bytes. refl;
}

abbrev some_request : Text
some_request = text "e30="

abbrev some_requests : List Request
some_requests =
    Libsingbox.asks_set_tun_fd (pos 7)
    ∷ Libsingbox.asks_start some_request
    ∷ Libsingbox.asks_open
    ∷ Libsingbox.asks_stop
    ∷ []

serve_all-Ready_example :
    Ends ⊥ (λ _. Ready) (λ c. ⊥) (Libsingbox.serve_all plain some_requests fresh)
serve_all-Ready_example = serve_all-Ready plain (λ t svc e. cc) (λ t svc r e. cc) some_requests

cgo_start_sing_box-waits_example :
    Libsingbox.cgo_start_sing_box opening some_request (unused_core (pos 7) [])
    ≡ Libsingbox.waits (record {
      locked = true;
      box_service = none;
      saved_tun_fd = pos 7;
      asked = Libsingbox.made some_request ∷ Libsingbox.set_up some_request ∷ [];
    })
cgo_start_sing_box-waits_example =
    cgo_start_sing_box-waits opening (pos 7) [] some_request
      (record { base_path = some_request; config = some_request }) 5
      (unfold Libsingbox.decode_request in refl) refl refl refl

cgo_start_sing_box-judge_example :
    Ends Unit
      (λ a d.
        Ensures no_stop
          (λ r t. (r.ok ≡ is_some d.box_service) × (t.singbox_running ≡ is_some d.box_service))
          (judge_singbox_start (some a) initial))
      (λ d. ⊥)
      (Libsingbox.cgo_start_sing_box plain some_request fresh)
cgo_start_sing_box-judge_example =
    cgo_start_sing_box-judge plain plain-Documented some_request
      (record { base_path = some_request; config = some_request }) fresh initial
      (unfold Libsingbox.decode_request in refl)

cgo_stop_sing_box-judge_example :
    Ends Unit
      (λ a d.
        (d.box_service ≡ none)
        × Ensures no_stop
            (λ r t.
              (r.ok ≡ closes plain (some 5) [])
              × (t.singbox_running
                  ≡ (if closes plain (some 5) [] then false else initial.singbox_running)))
            (judge_singbox_stop (some a) initial))
      (λ d. Unit)
      (Libsingbox.cgo_stop_sing_box plain (record fresh { box_service = some 5 }))
cgo_stop_sing_box-judge_example =
    cgo_stop_sing_box-judge plain plain-Documented (record fresh { box_service = some 5 }) initial

cgo_set_tun_fd-open_tun_example :
    Ends ⊥ (λ _. Hands plain (pos 7)) (λ c. ⊥) (Libsingbox.serve_all plain some_requests fresh)
cgo_set_tun_fd-open_tun_example =
    cgo_set_tun_fd-open_tun plain (pos 7)
      (Libsingbox.asks_start some_request ∷ Libsingbox.asks_open ∷ Libsingbox.asks_stop ∷ [])
      (λ t svc e. cc) (λ t svc r e. cc)
      (leaves_start some_request, (leaves_open, (leaves_stop, tt)))
