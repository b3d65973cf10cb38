-- ===== src/Behaviour/Crash.antt =====
-- When `SetTunFd` crashes: it calls `g_setTunFd`, which the load treats as optional.
use hey.Prelude.{
  ap, ◌∙◌, ℕ, ◌∷◌, ◌≡◌, refl, Bool, true, false, not, ◌&&◌, arith, is_some, ℤ, pos, ltb_ℤ, ◌/◌, ◌*◌,
}
use hey.Bridge.State.{Env, Bridge, Event}
use hey.Bridge.State
use hey.Bridge.Monad.{
  M, Outcome, done, crashed, success, gets, pure, modify, emit, ask, crash, ◌>>=◌, ◌>>◌,
}
use hey.Bridge.Calls
use hey.Loader.Xray as Loader
use hey.Xray

abbrev pub is_crashed {ℓ} : {A : Type ℓ} → Outcome A → Bool
is_crashed (crashed s) = true
is_crashed _ = false

-- The descriptor can be made inheritable, whatever happened before.
abbrev pub Inheritable : Env → ℤ → Type 0
Inheritable env fd =
    (t : State.Trace)
    → (flags : ℕ) × (env.get_fd_flags t fd ≡ pos flags)
      × ((kept : ℕ) (u : State.Trace) → ltb_ℤ (env.set_fd_flags u fd kept) (pos 0) ≡ false)

give_fd_crash :
    (fd : ℤ) (s : Bridge) → is_crashed (Xray.give_fd fd s) ≡ not (is_some s.xray.set_tun_fd)
unfolding Xray.give_fd Xray.set_bytes Xray.set_tun_running Calls.call_void Calls.create_result
    Calls.log crash gets pure modify emit ◌>>=◌ ◌>>◌
give_fd_crash fd s = ground arith

pub >>=-done {ℓ κ} :
    {A : Type ℓ} {B : Type κ} (m : M A) (f : A → M B) (s : Bridge) {a : A} {t : Bridge}
    → m s ≡ done a t
    → (m >>= f) s ≡ f a t
unfolding ◌>>=◌
>>=-done m f s e = rw (e, ◌>>=◌)

pub >>-done {κ} :
    {B : Type κ} (m : M (Unit {0})) (k : M B) (s : Bridge) {t : Bridge}
    → m s ≡ done tt t
    → (m >> k) s ≡ k t
unfolding ◌>>◌ ◌>>=◌
>>-done m k s e = rw (e, ◌>>=◌)

pub load_xray_core_again :
    (env : Env) (s : Bridge)
    → (is_some s.xray.handle && (is_some s.xray.invoke && is_some s.xray.free)) ≡ true
    → Loader.load_xray_core env s ≡ done (success tt) s
unfolding Loader.load_xray_core gets pure ◌>>=◌
load_xray_core_again env s loaded = ground arith

pub make_fd_inheritable_ok :
    (env : Env) (fd : ℤ) (s : Bridge)
    → Inheritable env fd
    → (t : Bridge) × (Calls.make_fd_inheritable env fd s ≡ done (success tt) t)
      × (t.xray ≡ s.xray)
      × (t.hev ≡ s.hev)
      × ((kept : ℕ) × (t.trace ≡ State.fd_flags_set fd kept ∷ State.fd_flags_read fd ∷ s.trace))
unfolding Calls.make_fd_inheritable Calls.set_inheritable gets pure ask ◌>>=◌
make_fd_inheritable_ok env fd s inheritable =
    let (flags, read, set) = inheritable s.trace in
    (
      record s { trace = State.fd_flags_set fd (flags / 2 * 2) ∷ State.fd_flags_read fd ∷ s.trace },
      ground (arith, set (flags / 2 * 2) (State.fd_flags_read fd ∷ s.trace)),
      refl,
      refl,
      (flags / 2 * 2, refl),
    )

-- With libxray loaded and a descriptor that can be made inheritable, the code of `SetTunFd` behind
-- its tests crashes exactly if the library does not export `CGoSetTunFd`.
pub configure_fd_crash :
    (env : Env) (s : Bridge) (fd : ℤ)
    → Inheritable env fd
    → (is_some s.xray.handle && (is_some s.xray.invoke && is_some s.xray.free)) ≡ true
    → is_crashed (Xray.configure_fd env fd s) ≡ not (is_some s.xray.set_tun_fd)
unfolding Xray.configure_fd
configure_fd_crash env s fd inheritable loaded =
    let (t, made, same, _, _) = make_fd_inheritable_ok env fd s inheritable in
    ap is_crashed (>>=-done _ _ s (load_xray_core_again env s loaded) ∙ >>=-done _ _ s made)
    ∙ give_fd_crash fd t
    ∙ ap (λ (x : State.XrayCore). not (is_some x.set_tun_fd)) same
