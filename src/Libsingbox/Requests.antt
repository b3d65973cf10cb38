-- ===== src/Libsingbox/Requests.antt =====
-- Sequences of requests to the wrapper, from the load of the library.
use hey.Prelude.{ℕ, List, [], ◌∷◌, true, false, none, ◌≡◌, refl, false, ℤ}
use hey.Codec.Text.{Text}
use hey.Bridge.Monad.{success}
use hey.Libsingbox
use hey.Libsingbox.{
  Packages, Core, G, BoxEvent, Request, Response, StartRequest, returns, waits, give, then_go,
  with_lock, fresh,
}
use hey.Libsingbox.Rules.{Ends, Runs, Runs-give, Runs-then}
use hey.Libsingbox.Service.{Ready, nothing, Ready-with_lock}
use hey.Libsingbox.Exports.{cgo_start_sing_box-Ready, cgo_stop_sing_box-Ready}

module _ (go : Packages) {W X : Type 0}
    (tun : (t : List BoxEvent) (svc : ℕ) → go.opens_tun t svc ≡ true → W)
    (crash : (t : List BoxEvent) (svc : ℕ) (r : Text)
      → go.close t svc ≡ Libsingbox.panicked r
      → X) where
  answered {ℓ} :
      {A : Type ℓ} {m : G A} (f : A → Response)
      → Runs W Ready m (λ _. Ready) (λ _. X)
      → Runs W Ready (then_go m (λ a. give (f a))) (λ _. Ready) (λ _. X)
  answered f h = Runs-then h λ a. Runs-give _ λ c r. r

  opened : Runs W Ready (Libsingbox.open_tun go) (λ _. Ready) (λ _. X)
  unfolding Libsingbox.open_tun
  opened =
      Runs-then (Ready-with_lock (record { run = λ c h. h }) (λ c x. x)) λ fd. Runs-give _ λ c r. r

  set : (fd : ℤ) → Runs W Ready (Libsingbox.cgo_set_tun_fd go fd) (λ _. Ready) (λ _. X)
  unfolding Libsingbox.cgo_set_tun_fd
  set fd = Ready-with_lock (record { run = λ c h. h }) (λ c x. x)

  serve-Ready : (q : Request) → Runs W Ready (Libsingbox.serve go q) (λ _. Ready) (λ _. X)
  unfolding Libsingbox.serve Libsingbox.cgo_sing_box_version
  serve-Ready Libsingbox.asks_version = answered _ (Runs-give _ λ c r. r)
  serve-Ready Libsingbox.asks_stop = answered _ (cgo_stop_sing_box-Ready go crash)
  serve-Ready Libsingbox.asks_open = answered _ opened
  serve-Ready (Libsingbox.asks_set_tun_fd fd) = answered _ (set fd)
  serve-Ready (Libsingbox.asks_start s) = answered _ (cgo_start_sing_box-Ready go tun s)

  serves : (qs : List Request) → Runs W Ready (Libsingbox.serve_all go qs) (λ _. Ready) (λ _. X)
  unfolding Libsingbox.serve_all
  serves [] = Runs-give _ λ c r. r
  serves (q ∷ qs) = Runs-then (serve-Ready q) λ r. Runs-then (serves qs) λ rs. Runs-give _ λ c h. h

  -- A sequence of requests from the load of libsingbox waits forever only if the start of a service opens
  -- the TUN, and panics only if the close of a service does. Where it returns, the mutex is free; libbox
  -- was set up and asked to make and to start a service only while none was in use; and the service in
  -- use is the last one that was started with success and not yet closed, each being closed once.
  pub serve_all-Ready :
      (qs : List Request) → Ends W (λ _. Ready) (λ _. X) (Libsingbox.serve_all go qs fresh)
  serve_all-Ready qs = (serves qs).run fresh (refl, nothing)

-- The mutex is free and no service in use.
abbrev pub unused_core : ℤ → List BoxEvent → Core
unused_core fd es = record { locked = false; box_service = none; saved_tun_fd = fd; asked = es }

-- With the mutex free, no service in use, a request that decodes, a set-up that succeeds and a service
-- that libbox makes, a start that opens the TUN waits forever: `OpenTun` asks for the mutex that the
-- start holds.
pub cgo_start_sing_box-waits :
    (go : Packages) (fd : ℤ) (es : List BoxEvent) (s : Text) (req : StartRequest) (svc : ℕ)
    → Libsingbox.decode_request go s ≡ success req
    → go.setup es req.base_path ≡ Libsingbox.returned tt
    → go.new_service (Libsingbox.set_up req.base_path ∷ es) req.config ≡ Libsingbox.returned svc
    → go.opens_tun (Libsingbox.made req.config ∷ Libsingbox.set_up req.base_path ∷ es) svc ≡ true
    → Libsingbox.cgo_start_sing_box go s (unused_core fd es)
      ≡ waits (record {
        locked = true;
        box_service = none;
        saved_tun_fd = fd;
        asked = Libsingbox.made req.config ∷ Libsingbox.set_up req.base_path ∷ es;
      })
unfolding Libsingbox.cgo_start_sing_box Libsingbox.recovered with_lock Libsingbox.start_locked
    Libsingbox.begin_service Libsingbox.make_service Libsingbox.run_service Libsingbox.ask_box
    then_go Libsingbox.start_service Libsingbox.open_tun
cgo_start_sing_box-waits go fd es s req svc d f g h =
    rw
      (
        d, Libsingbox.recovered, with_lock, Libsingbox.start_locked, Libsingbox.begin_service,
        Libsingbox.make_service, Libsingbox.run_service, then_go, Libsingbox.ask_box, f, g,
        Libsingbox.start_service, h,
      )
      refl
