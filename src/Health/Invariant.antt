-- ===== src/Health/Invariant.antt =====
-- The invariant of the bridge's globals and of its effects.
use hey.Prelude.{ℕ, suc, ◌≤◌, ◌≡◌, [], ◌∷◌, Bool, true, false, not, if◌then◌else◌, is_some, arith}
use hey.Bridge.State
use hey.Bridge.Keeps.{Allowed, endless_join}

-- How often the trace sets an environment variable.
abbrev pub env_sets : State.Trace → ℕ
env_sets [] = 0
env_sets (State.env_set name value ∷ t) = suc (env_sets t)
env_sets (_ ∷ t) = env_sets t

abbrev pub same : State.Allocator → State.Allocator → Bool
same State.cgo State.cgo = true
same State.malloc State.malloc = true
same _ _ = false

-- How many strings of an allocator were returned to the bridge, and how many it freed.
abbrev pub returns : State.Allocator → State.Trace → ℕ
returns a [] = 0
returns a (State.returned b s ∷ t) = let n = returns a t in if same a b then suc n else n
returns a (_ ∷ t) = returns a t

abbrev pub frees : State.Allocator → State.Trace → ℕ
frees a [] = 0
frees a (State.freed b s ∷ t) = let n = frees a t in if same a b then suc n else n
frees a (_ ∷ t) = frees a t

-- What is known of the libraries at a point of the code: that one is loaded, or that it is not.
pub data Known : Type 0 where
  any xray singbox gvisor hev no_xray no_singbox no_gvisor no_hev : Known

abbrev pub has : Known → State.Bridge → Bool
has any s = true
has xray s = is_some s.xray.handle
has singbox s = is_some s.singbox.handle
has gvisor s = is_some s.tun2socks.handle
has hev s = is_some s.hev.handle
has no_xray s = not (is_some s.xray.handle)
has no_singbox s = not (is_some s.singbox.handle)
has no_gvisor s = not (is_some s.tun2socks.handle)
has no_hev s = not (is_some s.hev.handle)

-- The invariant, with what is known.
pub record Healthy (k : Known) (s : State.Bridge) : Type 0 where
  pub present : has k s ≡ true
  pub env_set_once : env_sets s.trace ≡ (if s.xray_asset_env_set then 1 else 0)
  pub cgo_strings : returns State.cgo s.trace ≡ frees State.cgo s.trace
  pub malloc_strings : returns State.malloc s.trace ≡ frees State.malloc s.trace
  pub xray_symbols :
      is_some s.xray.handle ≡ true → (is_some s.xray.invoke ≡ true) × (is_some s.xray.free ≡ true)
  pub singbox_symbols :
      is_some s.singbox.handle ≡ true
      → (is_some s.singbox.start ≡ true)
        × (is_some s.singbox.stop ≡ true)
        × (is_some s.singbox.set_tun_fd ≡ true)
  pub tun2socks_symbols :
      is_some s.tun2socks.handle ≡ true
      → (is_some s.tun2socks.start ≡ true) × (is_some s.tun2socks.stop ≡ true)
  pub hev_symbols :
      is_some s.hev.handle ≡ true → (is_some s.hev.start ≡ true) × (is_some s.hev.quit ≡ true)
  pub xray_loaded : s.xray_running ≡ true → is_some s.xray.handle ≡ true
  pub singbox_loaded : s.singbox_running ≡ true → is_some s.singbox.handle ≡ true
  pub gvisor_loaded : s.tun_engine ≡ State.tun_engine_gvisor → is_some s.tun2socks.handle ≡ true
  pub hev_loaded : s.tun_engine ≡ State.tun_engine_hev → is_some s.hev.handle ≡ true
  pub engine_known : s.tun_engine ≤ 2

pub initial-IsHealthy : Healthy any State.initial
unfolding State.initial
initial-IsHealthy = ground arith

pub Healthy-any : {k : Known} {s : State.Bridge} → Healthy k s → Healthy any s
Healthy-any h = ground arith

-- Where `join` waits for a thread whose main does not end, the call is allowed not to return.
abbrev pub Joins : State.Env → Allowed → Type 0
Joins env C = (t : State.Trace) → env.hev_main_returns t ≡ false → C endless_join
