-- ===== src/Loader/Singbox.antt =====
-- `OpenSingbox` and `LoadSingboxCore` of entry/src/main/cpp/napi_init.cpp.
use hey.Prelude.{ℕ, ◌++◌, ◌&&◌, ◌||◌, not, Option, none, some, if◌then◌else◌, is_some}
use hey.Codec.Text.{Text, text}
use hey.Bridge.State.{Env, SingboxCore}
use hey.Bridge.Monad.{M, Try, success, failure, pure, ◌>>=◌, ◌>>◌, gets, modify}
use hey.Bridge.Calls.{dlsym, dlerror, open_library}

abbrev pub singbox_core_lib : Text
singbox_core_lib = text "libsingbox.so"

unfoldable pub set_singbox : (SingboxCore → SingboxCore) → M (Unit {0})
set_singbox f = modify (λ s. record s { singbox = f s.singbox })

module _ (env : Env) where
  unfoldable pub singbox_opened : Option ℕ → M (Try ℕ)
  singbox_opened none = do
    error ← dlerror env
    pure (failure (text "dlopen " ++ (singbox_core_lib ++ (text " failed: " ++ error))))
  singbox_opened (some handle) = pure (success handle)

  -- The handle, or the message for a null handle.
  unfoldable pub open_singbox : M (Try ℕ)
  open_singbox = do opened ← open_library env singbox_core_lib; singbox_opened opened

  unfoldable pub resolve_singbox : ℕ → M (Try (Unit {0}))
  resolve_singbox handle = do
    start ← dlsym env handle (text "CGoStartSingBox")
    set_singbox (λ c. record c { start = start })
    stop ← dlsym env handle (text "CGoStopSingBox")
    set_singbox (λ c. record c { stop = stop })
    set_tun_fd ← dlsym env handle (text "CGoSetTunFd")
    set_singbox (λ c. record c { set_tun_fd = set_tun_fd })
    if not (is_some start) || (not (is_some stop) || not (is_some set_tun_fd))
        then pure (failure (text "libsingbox unavailable: required CGo symbols missing."))
        else do set_singbox (λ c. record c { handle = some handle }); pure (success tt)

  unfoldable pub resolve_opened : Try ℕ → M (Try (Unit {0}))
  resolve_opened (failure message) = pure (failure message)
  resolve_opened (success handle) = do _ ← dlerror env; resolve_singbox handle

  unfoldable pub load_singbox_core : M (Try (Unit {0}))
  load_singbox_core = do
    loaded ← gets (λ s.
        is_some s.singbox.handle
        && (is_some s.singbox.start && (is_some s.singbox.stop && is_some s.singbox.set_tun_fd)))
    if loaded then pure (success tt) else do opened ← open_singbox; resolve_opened opened
