-- ===== src/Frame.antt =====
-- What the bridge's code leaves alone, whatever the environment answers: a predicate of the state that
-- is kept by effects with valid arguments and by the stores of handles and symbols.
pub mod Steps
pub mod Queries
pub mod Loads
use hey.Prelude.{
  ℕ, ◌∷◌, ◌%◌, ◌==◌, ◌≡◌, refl, Bool, true, false, not, ◌&&◌, ltb_ℤ, pos, is_empty, ℤ,
}
use hey.Codec.Text.{Text, text, text_eq}
use hey.Bridge.State
use hey.Bridge.State.{Bridge, Event, Arguments}

-- The arguments of a call: a count or an fd is not negative. The starts of the engines are not for what
-- is a frame to say.
abbrev pub valid_arguments : Arguments → Bool
valid_arguments State.no_arguments = true
valid_arguments (State.string_argument s) = true
valid_arguments (State.int_argument n) = not (ltb_ℤ n (pos 0))
valid_arguments (State.start_arguments fd host port mtu) = false
valid_arguments (State.config_argument config fd) = false

-- What may happen: an fd whose flags are touched is not negative and becomes inheritable, and no thread
-- is started or detached.
abbrev pub valid : Event → Bool
valid (State.called f args) = valid_arguments args
valid (State.thread_started f args) = false
valid (State.thread_detached f) = false
valid (State.fd_flags_read fd) = not (ltb_ℤ fd (pos 0))
valid (State.fd_flags_set fd flags) = not (ltb_ℤ fd (pos 0)) && flags % 2 == 0
valid _ = true

pub record Frame (I : Bridge → Type 0) : Type 0 where
  pub of_event :
      (e : Event) (s : Bridge) → valid e ≡ true → I s → I (record s { trace = e ∷ s.trace })
  pub of_env_set :
      (value : Text) (s : Bridge)
      → I s
      → I (record s {
        xray_asset_env_set = true;
        trace = Event.env_set (text "XRAY_LOCATION_ASSET") value ∷ s.trace;
      })
  pub of_xray : (x : State.XrayCore) (s : Bridge) → I s → I (record s { xray = x })
  pub of_singbox : (x : State.SingboxCore) (s : Bridge) → I s → I (record s { singbox = x })
  pub of_tun2socks : (x : State.Tun2SocksCore) (s : Bridge) → I s → I (record s { tun2socks = x })
  pub of_hev :
      (x : State.HevCore) (s : Bridge) → x.thread ≡ s.hev.thread → I s → I (record s { hev = x })

-- The same for what sets the last message and the counters too.
pub record Loud (I : Bridge → Type 0) : Type 0 where
  pub frame : Frame I
  pub of_message : (message : Text) (s : Bridge) → I s → I (record s { last_message = message })
  pub of_bytes :
      (up down : ℤ) (s : Bridge) → I s → I (record s { upload_bytes = up; download_bytes = down })
