-- ===== src/Libsingbox.antt =====
-- The sing-box wrapper: libsingbox/main.go and `OpenTun` of libsingbox/platform_stub.go, which the
-- bridge loads as libsingbox.so. A Go call returns, panics, or waits forever for the mutex `mu`.
pub mod Rules
pub mod Branches
pub mod Service
pub mod Exports
pub mod Requests
pub mod Fd
pub mod Quiet
pub mod Answers
pub mod InUse
pub mod Judge
use hey.Prelude.{ℕ, List, [], ◌∷◌, ◌++◌, Bool, true, false, not, Option, none, some, ℤ, pos, negsuc}
use hey.Prelude.{ltb_ℤ, if◌then◌else◌, is_some}
use hey.Codec.Text.{Text, text}
use hey.Bridge.Monad.{Try, success, failure}

pub record CallResponse : Type 0 where
  pub success : Bool
  pub data_text : Text
  pub err : Text

pub record StartRequest : Type 0 where
  pub base_path : Text
  pub config : Text

-- How a call of libbox ends, where a panic carries its value as `%v` shows it.
pub data Called {ℓ} (A : Type ℓ) : Type ℓ where
  returned : A → Called A
  failed : Text → Called A
  panicked : Text → Called A

-- What libbox was asked for: `Setup`, `NewService`, and the `Start` and the `Close` of a service. The
-- flag says whether the start succeeded.
pub data BoxEvent : Type 0 where
  set_up : Text → BoxEvent
  made : Text → BoxEvent
  started : ℕ → Bool → BoxEvent
  closed : ℕ → BoxEvent

-- The packages that the wrapper imports: what libbox answers may depend on what it was asked before, and
-- a start that opens the TUN on what it got. A service is a number, `none` is a nil error.
pub record Packages : Type 0 where
  pub marshal : CallResponse → Text  -- `json.Marshal`
  pub unmarshal : Text → Try StartRequest  -- `json.Unmarshal`
  pub encode_to_string : Text → Text  -- `base64.StdEncoding`
  pub decode_string : Text → Try Text
  pub stack : List BoxEvent → Text  -- `debug.Stack`
  pub version : Text
  pub setup : List BoxEvent → Text → Called (Unit {0})
  pub new_service : List BoxEvent → Text → Called ℕ
  pub opens_tun : List BoxEvent → ℕ → Bool  -- does the start of a service call `OpenTun`?
  pub start : List BoxEvent → ℕ → Option (Option ℤ) → Called (Unit {0})
  pub close : List BoxEvent → ℕ → Called (Unit {0})

-- The globals, of `mu` whether it is locked, and what libbox was asked for, the latest first.
pub record Core : Type 0 where
  pub locked : Bool
  pub box_service : Option ℕ
  pub saved_tun_fd : ℤ
  pub asked : List BoxEvent

-- As the library is loaded.
abbrev pub fresh : Core
fresh = record { locked = false; box_service = none; saved_tun_fd = negsuc 0; asked = [] }

pub data Go {ℓ} (A : Type ℓ) : Type ℓ where
  returns : A → Core → Go A
  panics : Text → Core → Go A
  waits : Core → Go A

abbrev pub G {ℓ} : Type ℓ → Type ℓ
G A = Core → Go A

unfoldable pub give {ℓ} : {A : Type ℓ} → A → G A
give a c = returns a c

unfoldable pub then_go {ℓ κ} : {A : Type ℓ} {B : Type κ} → G A → (A → G B) → G B
then_go m f c = elim (m c) [ returns a d ↦ f a d | panics r d ↦ panics r d | waits d ↦ waits d ]

-- `mu.Lock()`, and `mu.Unlock()` on return and on a panic.
unfoldable pub with_lock {ℓ} : {A : Type ℓ} → G A → G A
with_lock m c =
    let ended = m (record c { locked = true }) in
    if c.locked then waits c else elim ended [
      | returns a d ↦ returns a (record d { locked = false })
      | panics r d ↦ panics r (record d { locked = false })
      | waits d ↦ waits d
    ]

-- A call of libbox, which is noted.
unfoldable pub ask_box {ℓ} :
    {A : Type ℓ} → (List BoxEvent → Called A) → (Called A → BoxEvent) → G (Try A)
ask_box f e c =
    let a = f c.asked in
    let d : Core = record c { asked = e a ∷ c.asked } in
    elim a [
      | returned x ↦ returns (success x) d
      | failed err ↦ returns (failure err) d
      | panicked r ↦ panics r d
    ]

abbrev pub succeeded {ℓ} : {A : Type ℓ} → Called A → Bool
succeeded (returned x) = true
succeeded (failed err) = false
succeeded (panicked r) = false

unfoldable pub set_service : Option ℕ → G (Unit {0})
set_service s c = returns tt (record c { box_service = s })

module _ (go : Packages) where
  unfoldable pub encode : Text → Option Text → Text
  encode data_text err = go.encode_to_string (
      go.marshal (record {
        success = not (is_some err);
        data_text = data_text;
        err = elim err [ none ↦ [] | some e ↦ e ];
      }))

  unfoldable pub decode_request : Text → Try StartRequest
  decode_request base64_text = elim (go.decode_string base64_text) [
    | failure err ↦ failure err
    | success raw ↦ go.unmarshal raw
  ]

  unfoldable pub cgo_sing_box_version : G Text
  cgo_sing_box_version = give (encode go.version none)

  unfoldable pub cgo_set_tun_fd : ℤ → G (Unit {0})
  cgo_set_tun_fd fd = with_lock (λ c. returns tt (record c { saved_tun_fd = fd }))

  -- `none` is the result -1 with `os.ErrInvalid`.
  unfoldable pub open_tun : G (Option ℤ)
  open_tun =
      then_go (with_lock (λ c. returns c.saved_tun_fd c))
        λ fd. give (if ltb_ℤ fd (pos 0) then none else some fd)

  -- `svc.Start()`, which may call `OpenTun` before it returns.
  unfoldable pub start_service : ℕ → G (Try (Unit {0}))
  start_service svc =
      then_go
        (λ c.
          if go.opens_tun c.asked svc
          then then_go open_tun (λ r. give (some r)) c
          else returns none c)
        λ tun. ask_box (λ t. go.start t svc tun) (λ a. started svc (succeeded a))

  -- `CGoStartSingBox` behind the lock, from its end: behind `svc.Start()`, behind `NewService`, behind
  -- `Setup`, and behind the test of `boxService`.
  unfoldable pub keep_service : ℕ → Try (Unit {0}) → G Text
  keep_service svc begun = elim begun [
    | failure err ↦ give (encode [] (some err))
    | success _ ↦ then_go (set_service (some svc)) (λ _. give (encode (text "started") none))
  ]

  unfoldable pub run_service : Try ℕ → G Text
  run_service service = elim service [
    | failure err ↦ give (encode [] (some err))
    | success svc ↦ then_go (start_service svc) (keep_service svc)
  ]

  unfoldable pub make_service : StartRequest → Try (Unit {0}) → G Text
  make_service req ready = elim ready [
    | failure err ↦ give (encode [] (some err))
    | success _ ↦
        then_go (ask_box (λ t. go.new_service t req.config) (λ a. made req.config)) run_service
  ]

  unfoldable pub begin_service : StartRequest → G Text
  begin_service req =
      then_go (ask_box (λ t. go.setup t req.base_path) (λ a. set_up req.base_path))
        (make_service req)

  unfoldable pub start_locked : StartRequest → G Text
  start_locked req c =
      if is_some c.box_service
      then returns (encode (text "already running") none) c
      else begin_service req c

  -- The deferred `recover()`.
  unfoldable pub recovered : G Text → G Text
  recovered m c = elim (m c) [
    | returns a d ↦ returns a d
    | panics r d ↦
        returns
          (encode []
            (some (text "sing-box start panic: " ++ (r ++ (text " | " ++ go.stack d.asked)))))
          d
    | waits d ↦ waits d
  ]

  unfoldable pub cgo_start_sing_box : Text → G Text
  cgo_start_sing_box base64_text = recovered (elim (decode_request base64_text) [
    | failure err ↦ give (encode [] (some err))
    | success req ↦ with_lock (start_locked req)
  ])

  -- `CGoStopSingBox` behind the lock, of the service that runs.
  unfoldable pub close_service : ℕ → G Text
  close_service svc = then_go (ask_box (λ t. go.close t svc) (λ a. closed svc)) λ ended.
      then_go (set_service none) λ _.
        give (encode (text "stopped") (elim ended [ failure err ↦ some err | success _ ↦ none ]))

  unfoldable pub cgo_stop_sing_box : G Text
  cgo_stop_sing_box = with_lock (λ c. elim c.box_service [
    | none ↦ returns (encode (text "not running") none) c
    | some svc ↦ close_service svc c
  ])

-- The exported functions, and `OpenTun` where libbox calls it outside a start.
pub data Request : Type 0 where
  asks_version asks_stop asks_open : Request
  asks_set_tun_fd : ℤ → Request
  asks_start : Text → Request

pub data Response : Type 0 where
  answered_text : Text → Response
  answered_fd : Option ℤ → Response
  answered_nothing : Response

unfoldable pub serve : Packages → Request → G Response
serve go asks_version = then_go (cgo_sing_box_version go) (λ s. give (answered_text s))
serve go asks_stop = then_go (cgo_stop_sing_box go) (λ s. give (answered_text s))
serve go asks_open = then_go (open_tun go) (λ fd. give (answered_fd fd))
serve go (asks_set_tun_fd fd) = then_go (cgo_set_tun_fd go fd) (λ _. give answered_nothing)
serve go (asks_start s) = then_go (cgo_start_sing_box go s) (λ r. give (answered_text r))

unfoldable pub serve_all : Packages → List Request → G (List Response)
serve_all go [] = give []
serve_all go (q ∷ qs) = then_go (serve go q) (λ r. then_go (serve_all go qs) (λ rs. give (r ∷ rs)))
