-- ===== src/Loader/Engines.antt =====
-- `LoadTun2SocksCore` and `LoadHevCore` of entry/src/main/cpp/napi_init.cpp.
use hey.Prelude.{ℕ, ◌++◌, ◌&&◌, ◌||◌, not, Option, none, some, if◌then◌else◌, is_some}
use hey.Codec.Text.{Text, text}
use hey.Bridge.State.{Env, Tun2SocksCore, HevCore}
use hey.Bridge.Monad.{M, Try, success, failure, pure, ◌>>=◌, ◌>>◌, gets, modify}
use hey.Bridge.Calls.{dlsym, dlerror, open_library}

abbrev pub tun2socks_lib : Text
tun2socks_lib = text "libheytun2socks.so"

abbrev pub hev_tun_lib : Text
hev_tun_lib = text "libhevsocks5tun.so"

unfoldable pub set_tun2socks : (Tun2SocksCore → Tun2SocksCore) → M (Unit {0})
set_tun2socks f = modify (λ s. record s { tun2socks = f s.tun2socks })

unfoldable pub set_hev : (HevCore → HevCore) → M (Unit {0})
set_hev f = modify (λ s. record s { hev = f s.hev })

module _ (env : Env) where
  unfoldable pub resolve_tun2socks : ℕ → M (Try (Unit {0}))
  resolve_tun2socks handle = do
    start ← dlsym env handle (text "HeyTun2SocksStart")
    set_tun2socks (λ c. record c { start = start })
    stop ← dlsym env handle (text "HeyTun2SocksStop")
    set_tun2socks (λ c. record c { stop = stop })
    upload ← dlsym env handle (text "HeyTun2SocksUploadBytes")
    set_tun2socks (λ c. record c { upload_bytes = upload })
    download ← dlsym env handle (text "HeyTun2SocksDownloadBytes")
    set_tun2socks (λ c. record c { download_bytes = download })
    if not (is_some start) || not (is_some stop)
        then pure (failure (text "tun2socks unavailable: required HeyTun2Socks symbols missing."))
        else do set_tun2socks (λ c. record c { handle = some handle }); pure (success tt)

  unfoldable pub tun2socks_opened : Option ℕ → Text → M (Try (Unit {0}))
  tun2socks_opened none error = pure (
      failure
        (text "tun2socks unavailable: failed to load " ++ (tun2socks_lib ++ (text ": " ++ error))))
  tun2socks_opened (some handle) error = resolve_tun2socks handle

  unfoldable pub open_tun2socks : M (Try (Unit {0}))
  open_tun2socks = do
    opened ← open_library env tun2socks_lib
    error ← dlerror env
    tun2socks_opened opened error

  unfoldable pub load_tun2socks_core : M (Try (Unit {0}))
  load_tun2socks_core = do
    loaded ←
        gets (λ s.
          is_some s.tun2socks.handle && (is_some s.tun2socks.start && is_some s.tun2socks.stop))
    if loaded then pure (success tt) else open_tun2socks

  unfoldable pub resolve_hev : ℕ → M (Try (Unit {0}))
  resolve_hev handle = do
    start ← dlsym env handle (text "hev_socks5_tunnel_main_from_str")
    set_hev (λ c. record c { start = start })
    quit ← dlsym env handle (text "hev_socks5_tunnel_quit")
    set_hev (λ c. record c { quit = quit })
    stats ← dlsym env handle (text "hev_socks5_tunnel_stats")
    set_hev (λ c. record c { stats = stats })
    if not (is_some start) || not (is_some quit)
        then pure
            (failure (text "hev tun unavailable: required hev_socks5_tunnel symbols missing."))
        else do set_hev (λ c. record c { handle = some handle }); pure (success tt)

  unfoldable pub hev_opened : Option ℕ → Text → M (Try (Unit {0}))
  hev_opened none error = pure (
      failure
        (text "hev tun unavailable: failed to load " ++ (hev_tun_lib ++ (text ": " ++ error))))
  hev_opened (some handle) error = resolve_hev handle

  unfoldable pub open_hev : M (Try (Unit {0}))
  open_hev = do opened ← open_library env hev_tun_lib; error ← dlerror env; hev_opened opened error

  unfoldable pub load_hev_core : M (Try (Unit {0}))
  load_hev_core = do
    loaded ← gets (λ s. is_some s.hev.handle && (is_some s.hev.start && is_some s.hev.quit))
    if loaded then pure (success tt) else open_hev
