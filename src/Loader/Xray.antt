-- ===== src/Loader/Xray.antt =====
-- `LoadXrayCore`, `LoadXray`, `PrepareXrayAssetDir` and `InvokeXray` of
-- entry/src/main/cpp/napi_init.cpp.
use hey.Prelude.{ℕ, ◌++◌, Bool, true, false, ◌&&◌, ◌||◌, not, Option, none, some}
use hey.Prelude.{if◌then◌else◌, is_empty, is_some}
use hey.Codec.Text.{Text, text, c_str}
use hey.Bridge.State.{Env, Event, Level, Allocator, Arguments, XrayCore}
use hey.Bridge.Monad.{M, Try, success, failure, pure, ◌>>=◌, ◌>>◌, gets, modify, emit}
use hey.Bridge.Calls.{log, dlsym, dlerror, open_library, call_string, cgo_free}

abbrev pub xray_core_lib : Text
xray_core_lib = text "libxray.so"

unfoldable pub set_xray : (XrayCore → XrayCore) → M (Unit {0})
set_xray f = modify (λ s. record s { xray = f s.xray })

-- Under the mutex, which a sequence of calls does not show.
unfoldable pub prepare_xray_asset_dir : Text → M (Unit {0})
prepare_xray_asset_dir dir = do
  skip ← gets (λ s. s.xray_asset_env_set || (is_some s.xray.handle || is_empty dir))
  if skip then pure tt else do
    emit (Event.env_set (text "XRAY_LOCATION_ASSET") (c_str dir))
    modify (λ s. record s { xray_asset_env_set = true })

-- The request as `CGoInvoke` gets it, up to its first NUL.
unfoldable pub invoke_request : Text → Text → Text
invoke_request method payload =
    text "{\"apiVersion\":1,\"method\":\""
    ++ (method
        ++ (text "\",\"payload\":"
            ++ ((if is_empty payload then text "{}" else payload) ++ text "}")))

module _ (env : Env) where
  -- The symbols of a library that has been opened.
  unfoldable pub resolve_xray : ℕ → M (Try (Unit {0}))
  resolve_xray handle = do
    invoke ← dlsym env handle (text "CGoInvoke")
    set_xray (λ x. record x { invoke = invoke })
    free ← dlsym env handle (text "CGoFree")
    set_xray (λ x. record x { free = free })
    set_tun_fd ← dlsym env handle (text "CGoSetTunFd")
    set_xray (λ x. record x { set_tun_fd = set_tun_fd })
    if not (is_some invoke) || not (is_some free)
        then pure (failure (text "libXray unavailable: CGoInvoke/CGoFree symbols missing."))
        else do set_xray (λ x. record x { handle = some handle }); pure (success tt)

  unfoldable pub xray_opened : Option ℕ → Text → M (Try (Unit {0}))
  xray_opened none error = pure (
      failure
        (text "libXray unavailable: failed to load " ++ (xray_core_lib ++ (text ": " ++ error))))
  xray_opened (some handle) error = resolve_xray handle

  -- The part of `LoadXrayCore` from the first `dlopen` on.
  unfoldable pub open_xray : M (Try (Unit {0}))
  unfolding xray_opened
  open_xray = do
    opened ← open_library env xray_core_lib
    error ← dlerror env
    xray_opened opened error

  unfoldable pub load_xray_core : M (Try (Unit {0}))
  load_xray_core = do
    loaded ← gets (λ s. is_some s.xray.handle && (is_some s.xray.invoke && is_some s.xray.free))
    if loaded then pure (success tt) else open_xray

  unfoldable pub load_xray : M Bool
  load_xray = do
    loaded ← load_xray_core
    elim loaded [
      | success _ ↦ pure true
      | failure message ↦ do
        modify (λ s. record s { last_message = message })
        log Level.error message
        pure false
    ]

  -- `InvokeXray` behind the load: the answer is copied and then freed.
  unfoldable pub received : Text → Option Text → M (Try Text)
  received method none =
      pure (failure (text "libXray CGoInvoke(" ++ (method ++ text ") returned null.")))
  received method (some response) = do
    free ← gets (λ s. s.xray.free)
    cgo_free free response
    pure (success response)

  unfoldable pub invoke_loaded : Text → Text → M (Try Text)
  invoke_loaded method payload = do
    invoke ← gets (λ s. s.xray.invoke)
    raw ←
        call_string env Allocator.cgo invoke
          (Arguments.string_argument (c_str (invoke_request method payload)))
    received method raw

  unfoldable pub invoke_xray : Text → Text → M (Try Text)
  invoke_xray method payload = do
    loaded ← load_xray_core
    elim loaded [ failure err ↦ pure (failure err) | success _ ↦ invoke_loaded method payload ]
