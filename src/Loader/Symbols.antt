-- ===== src/Loader/Symbols.antt =====
-- `LoadOptionalSymbol` and the eight lazy symbols of entry/src/main/cpp/napi_init.cpp.
use hey.Prelude.{ℕ, Option, none, some}
use hey.Codec.Text.{Text, text}
use hey.Bridge.State.{Env, XrayCore}
use hey.Bridge.Monad.{M, success, failure, pure, ◌>>=◌, ◌>>◌, gets}
use hey.Bridge.Calls.{dlsym, dlerror}
use hey.Loader.Xray.{set_xray, load_xray_core}

module _ (env : Env) where
  unfoldable pub load_optional_symbol : Text → M (Option ℕ)
  load_optional_symbol name = do
    loaded ← load_xray_core env
    elim loaded [
      | failure _ ↦ pure none
      | success _ ↦ do
        handle ← gets (λ s. s.xray.handle)
        elim handle [ none ↦ pure none | some h ↦ do _ ← dlerror env; dlsym env h name ]
    ]

  -- `if (g_f == nullptr) g_f = LoadOptionalSymbol(name); return g_f;`
  unfoldable pub lazy_symbol :
      (XrayCore → Option ℕ) → (Option ℕ → XrayCore → XrayCore) → Text → M (Option ℕ)
  lazy_symbol get put name = do
    known ← gets (λ s. get s.xray)
    elim known [
      | some f ↦ pure (some f)
      | none ↦ do found ← load_optional_symbol name; set_xray (put found); pure found
    ]

  unfoldable pub load_query_stats : M (Option ℕ)
  load_query_stats =
      lazy_symbol (λ x. x.query_stats) (λ f x. record x { query_stats = f }) (text "CGoQueryStats")

  unfoldable pub load_test_xray : M (Option ℕ)
  load_test_xray =
      lazy_symbol (λ x. x.test_xray) (λ f x. record x { test_xray = f }) (text "CGoTestXray")

  unfoldable pub load_xray_version : M (Option ℕ)
  load_xray_version =
      lazy_symbol (λ x. x.version) (λ f x. record x { version = f }) (text "CGoXrayVersion")

  unfoldable pub load_count_geo_data : M (Option ℕ)
  load_count_geo_data =
      lazy_symbol (λ x. x.count_geo_data) (λ f x. record x { count_geo_data = f })
        (text "CGoCountGeoData")

  unfoldable pub load_read_geo_files : M (Option ℕ)
  load_read_geo_files =
      lazy_symbol (λ x. x.read_geo_files) (λ f x. record x { read_geo_files = f })
        (text "CGoReadGeoFiles")

  unfoldable pub load_get_free_ports : M (Option ℕ)
  load_get_free_ports =
      lazy_symbol (λ x. x.get_free_ports) (λ f x. record x { get_free_ports = f })
        (text "CGoGetFreePorts")

  unfoldable pub load_convert_share_links_to_xray_json : M (Option ℕ)
  load_convert_share_links_to_xray_json =
      lazy_symbol (λ x. x.convert_share_links_to_xray_json)
        (λ f x. record x { convert_share_links_to_xray_json = f })
        (text "CGoConvertShareLinksToXrayJson")

  unfoldable pub load_convert_xray_json_to_share_links : M (Option ℕ)
  load_convert_xray_json_to_share_links =
      lazy_symbol (λ x. x.convert_xray_json_to_share_links)
        (λ f x. record x { convert_xray_json_to_share_links = f })
        (text "CGOConvertXrayJsonToShareLinks")
