-- ===== src/Libsingbox/Judge.antt =====
-- The bridge's flag of sing-box against the service in use, behind a start and behind a stop.
use hey.Prelude.{Bool, true, false, none, some, ◌≡◌, refl, ◌∙◌, is_some, if◌then◌else◌}
use hey.Codec.Text.{Text}
use hey.Codec.Response.{response_ok}
use hey.Bridge.State.{Bridge}
use hey.Bridge.Monad.{success, pure, modify, emit, ◌>>=◌, ◌>>◌}
use hey.Bridge.Keeps.{Ensures, no_stop}
use hey.Bridge.Calls.{NapiResult}
use hey.Bridge.Calls
use hey.Singbox.{judge_singbox_start, judge_singbox_stop}
use hey.Singbox
use hey.Xray
use hey.Libsingbox
use hey.Libsingbox.{
  Packages, Core, Go, G, BoxEvent, Called, StartRequest, set_up, made, started, closed, returns,
  panics, waits, give, then_go, ask_box, set_service, with_lock,
}
use hey.Libsingbox.Rules.{Ends}
use hey.Libsingbox.Answers.{Documented, encode-response_ok}
use hey.Libsingbox.InUse.{
  Answers, answers, Tells, closes, Stopped, cgo_start_sing_box-Tells, cgo_stop_sing_box-Stopped,
}

module _ (go : Packages) (doc : Documented go) where
  ok-of : (ok : Bool) (a : Text) → Answers go ok a → (response_ok a).0 ≡ ok
  ok-of ok a (answers data_text err e) = encode-response_ok go doc data_text err ∙ e

  judged_start :
      (ok : Bool) (a : Text) (b : Bridge)
      → Answers go ok a
      → Ensures no_stop
          (λ r t. (r.ok ≡ ok) × (t.singbox_running ≡ ok))
          (judge_singbox_start (some a) b)
  unfolding judge_singbox_start Singbox.singbox_failed Singbox.set_singbox_running
      Calls.create_result ◌>>=◌ ◌>>◌ modify pure Calls.log emit
  judged_start true a b h = rw (ok-of true a h) (refl, refl)
  judged_start false a b h = rw (ok-of false a h) (refl, refl)

  judged_stop :
      (ok : Bool) (a : Text) (b : Bridge)
      → Answers go ok a
      → Ensures no_stop
          (λ r t. (r.ok ≡ ok) × (t.singbox_running ≡ (if ok then false else b.singbox_running)))
          (judge_singbox_stop (some a) b)
  unfolding judge_singbox_stop Singbox.set_singbox_running Xray.set_tun_running Calls.create_result
      ◌>>=◌ ◌>>◌ modify pure Calls.log emit
  judged_stop true a b h = rw (ok-of true a h) (refl, refl)
  judged_stop false a b h = rw (ok-of false a h) (refl, refl)

  -- Where the packages do as documented, a start of libsingbox whose request decodes answers or waits, and
  -- the answer makes the bridge report success, and take sing-box to run, exactly where a service is then
  -- in use.
  pub cgo_start_sing_box-judge :
      (s : Text) (req : StartRequest) (c : Core) (b : Bridge)
      → Libsingbox.decode_request go s ≡ success req
      → Ends Unit
          (λ a d.
            Ensures no_stop
              (λ r t. (r.ok ≡ is_some d.box_service) × (t.singbox_running ≡ is_some d.box_service))
              (judge_singbox_start (some a) b))
          (λ d. ⊥)
          (Libsingbox.cgo_start_sing_box go s c)
  cgo_start_sing_box-judge s req c b decodes =
      ends (Libsingbox.cgo_start_sing_box go s c)
        ((cgo_start_sing_box-Tells go s req decodes).run c tt)
    where
      ends :
          (o : Go Text)
          → Ends Unit (Tells go) (λ d. ⊥) o
          → Ends Unit
              (λ a d.
                Ensures no_stop
                  (λ r t.
                    (r.ok ≡ is_some d.box_service) × (t.singbox_running ≡ is_some d.box_service))
                  (judge_singbox_start (some a) b))
              (λ d. ⊥)
              o
      ends (returns a d) h = judged_start (is_some d.box_service) a b h
      ends (panics r d) h = h
      ends (waits d) h = h

  -- Where the packages do as documented, a stop of libsingbox that answers leaves no service in use; the
  -- bridge reports success, and takes sing-box to run no more, exactly where the close of the service, if
  -- one was in use, succeeds, and keeps its flag where it fails.
  pub cgo_stop_sing_box-judge :
      (c : Core) (b : Bridge)
      → Ends Unit
          (λ a d.
            (d.box_service ≡ none)
            × Ensures no_stop
                (λ r t.
                  (r.ok ≡ closes go c.box_service c.asked)
                  × (t.singbox_running
                      ≡ (if closes go c.box_service c.asked then false else b.singbox_running)))
                (judge_singbox_stop (some a) b))
          (λ d. Unit)
          (Libsingbox.cgo_stop_sing_box go c)
  cgo_stop_sing_box-judge c b =
      ends (Libsingbox.cgo_stop_sing_box go c)
        ((cgo_stop_sing_box-Stopped go (closes go c.box_service c.asked)).run c refl)
    where
      ends :
          (o : Go Text)
          → Ends Unit (Stopped go (closes go c.box_service c.asked)) (λ d. Unit) o
          → Ends Unit
              (λ a d.
                (d.box_service ≡ none)
                × Ensures no_stop
                    (λ r t.
                      (r.ok ≡ closes go c.box_service c.asked)
                      × (t.singbox_running
                          ≡ (if closes go c.box_service c.asked then false else b.singbox_running)))
                    (judge_singbox_stop (some a) b))
              (λ d. Unit)
              o
      ends (returns a d) h = (h.0, judged_stop (closes go c.box_service c.asked) a b h.1)
      ends (panics r d) h = tt
      ends (waits d) h = tt
