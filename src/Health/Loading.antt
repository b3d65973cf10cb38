-- ===== src/Health/Loading.antt =====
-- Loading a library keeps the invariant, and a success means that the library is there.
use hey.Bridge.Keeps.{Allowed}
use hey.Prelude.{ℕ, ◌≡◌, true, false, Option, none, some, is_some, arith, ◌⊎◌, inl, inr, Bool-cases}
use hey.Codec.Text.{Text}
use hey.Bridge.State.{Env, Bridge}
use hey.Bridge.Monad.{M, Try, success, failure, pure, emit, ask, modify, gets, ◌>>=◌, ◌>>◌}
use hey.Bridge.Calls
use hey.Bridge.Keeps.{
  Ensures, Triple, Triple->>=, Triple-of_Keeps, Keeps, Keeps->>=, keeps_rules, Keeps-pure,
}
use hey.Loader.Xray
use hey.Loader.Engines
use hey.Loader.Singbox
use hey.Health.Invariant.{
  Known, any, xray, singbox, gvisor, hev, no_xray, no_singbox, no_gvisor, no_hev, has, Healthy,
  Healthy-any,
}
use hey.Health.Helpers.{Keeps-dlerror, Keeps-open_library}

known : (l : Known) {k : Known} (s : Bridge) → Healthy k s → has l s ≡ true → Healthy l s
known l s h e = ground arith

abbrev pub Ends {ℓ} : Allowed → Known → {A : Type ℓ} → M A → Type ℓ
Ends C k m = Triple C (Healthy k) m (λ _. Healthy any)

-- A failure keeps the invariant, and a success adds that `l` is loaded.
abbrev pub Loaded {ℓ} : {A : Type ℓ} → Known → Try A → Bridge → Type 0
Loaded l (success a) s = Healthy l s
Loaded l (failure e) s = Healthy any s

pub Keeps-prepare_xray_asset_dir :
    {C : Allowed} {k : Known} (dir : Text) → Keeps C (Healthy k) (Xray.prepare_xray_asset_dir dir)
unfolding Xray.prepare_xray_asset_dir ◌>>=◌ ◌>>◌ gets pure emit modify
Keeps-prepare_xray_asset_dir dir = record { keeps = λ s h. ground arith }

-- The code behind a load: `n` where it failed, `f` where the library is loaded.
by_result {ℓ κ} :
    {A : Type ℓ} {B : Type κ} {C : Allowed} {l : Known} (r : Try A) {n : Text → M B} {f : A → M B}
    → ((e : Text) → Ends C any (n e))
    → ((a : A) → Ends C l (f a))
    → Triple C (Loaded l r) (elim r [ failure e ↦ n e | success a ↦ f a ]) (λ _. Healthy any)
by_result (failure e) h k = h e
by_result (success a) h k = k a

pub Ends-load {ℓ κ} :
    {A : Type ℓ} {B : Type κ} {C : Allowed} {k l : Known} {m : M (Try A)} {n : Text → M B}
    {f : A → M B}
    → Triple C (Healthy k) m (Loaded l)
    → ((e : Text) → Ends C any (n e))
    → ((a : A) → Ends C l (f a))
    → Ends C k (m >>= λ r. elim r [ failure e ↦ n e | success a ↦ f a ])
Ends-load m n f = Triple->>= m (λ r. by_result r n f)

module _ (env : Env) {C : Allowed} where
  resolve_xray-Loaded :
      (handle : ℕ) → Triple C (Healthy no_xray) (Xray.resolve_xray env handle) (Loaded xray)
  unfolding Xray.resolve_xray Calls.dlsym Xray.set_xray ◌>>=◌ ◌>>◌ ask modify pure
  resolve_xray-Loaded handle = record { run = λ s h. ground arith }

  xray_opened-Loaded :
      (opened : Option ℕ) (error : Text)
      → Triple C (Healthy no_xray) (Xray.xray_opened env opened error) (Loaded xray)
  unfolding Xray.xray_opened pure
  xray_opened-Loaded none error = record { run = λ s h. Healthy-any h }
  xray_opened-Loaded (some handle) error = resolve_xray-Loaded handle

  -- What follows the test of `LoadXrayCore` where the library is not loaded.
  open_xray-Loaded : Triple C (Healthy no_xray) (Xray.open_xray env) (Loaded xray)
  unfolding Xray.open_xray
  open_xray-Loaded = Triple->>= (Triple-of_Keeps (Keeps-open_library env _)) λ opened.
      Triple->>= (Triple-of_Keeps (Keeps-dlerror env)) λ error. xray_opened-Loaded opened error

  pub load_xray_core-Loaded :
      {k : Known} → Triple C (Healthy k) (Xray.load_xray_core env) (Loaded xray)
  unfolding Xray.load_xray_core ◌>>=◌ gets pure
  load_xray_core-Loaded {k} = record {
    run = λ s h. by_handle s h (Bool-cases (is_some s.xray.handle));
  }
    where
      by_handle :
          (s : Bridge)
          → Healthy k s
          → (is_some s.xray.handle ≡ true) ⊎ (is_some s.xray.handle ≡ false)
          → Ensures C (Loaded xray) (Xray.load_xray_core env s)
      by_handle s h (inl e) = let (a, b) = h.xray_symbols e in rw (e, a, b) (known xray s h e)
      by_handle s h (inr e) = rw e (open_xray-Loaded.run s (known no_xray s h (rw e)))

  resolve_tun2socks-Loaded :
      (handle : ℕ)
      → Triple C (Healthy no_gvisor) (Engines.resolve_tun2socks env handle) (Loaded gvisor)
  unfolding Engines.resolve_tun2socks Calls.dlsym Engines.set_tun2socks ◌>>=◌ ◌>>◌ ask modify pure
  resolve_tun2socks-Loaded handle = record { run = λ s h. ground arith }

  tun2socks_opened-Loaded :
      (opened : Option ℕ) (error : Text)
      → Triple C (Healthy no_gvisor) (Engines.tun2socks_opened env opened error) (Loaded gvisor)
  unfolding Engines.tun2socks_opened pure
  tun2socks_opened-Loaded none error = record { run = λ s h. Healthy-any h }
  tun2socks_opened-Loaded (some handle) error = resolve_tun2socks-Loaded handle

  open_tun2socks-Loaded : Triple C (Healthy no_gvisor) (Engines.open_tun2socks env) (Loaded gvisor)
  unfolding Engines.open_tun2socks
  open_tun2socks-Loaded = Triple->>= (Triple-of_Keeps (Keeps-open_library env _)) λ opened.
      Triple->>= (Triple-of_Keeps (Keeps-dlerror env)) λ error. tun2socks_opened-Loaded opened error

  pub load_tun2socks_core-Loaded :
      {k : Known} → Triple C (Healthy k) (Engines.load_tun2socks_core env) (Loaded gvisor)
  unfolding Engines.load_tun2socks_core ◌>>=◌ gets pure
  load_tun2socks_core-Loaded {k} = record {
    run = λ s h. by_handle s h (Bool-cases (is_some s.tun2socks.handle));
  }
    where
      by_handle :
          (s : Bridge)
          → Healthy k s
          → (is_some s.tun2socks.handle ≡ true) ⊎ (is_some s.tun2socks.handle ≡ false)
          → Ensures C (Loaded gvisor) (Engines.load_tun2socks_core env s)
      by_handle s h (inl e) =
          let (a, b) = h.tun2socks_symbols e in rw (e, a, b) (known gvisor s h e)
      by_handle s h (inr e) = rw e (open_tun2socks-Loaded.run s (known no_gvisor s h (rw e)))

  resolve_hev-Loaded :
      (handle : ℕ) → Triple C (Healthy no_hev) (Engines.resolve_hev env handle) (Loaded hev)
  unfolding Engines.resolve_hev Calls.dlsym Engines.set_hev ◌>>=◌ ◌>>◌ ask modify pure
  resolve_hev-Loaded handle = record { run = λ s h. ground arith }

  hev_opened-Loaded :
      (opened : Option ℕ) (error : Text)
      → Triple C (Healthy no_hev) (Engines.hev_opened env opened error) (Loaded hev)
  unfolding Engines.hev_opened pure
  hev_opened-Loaded none error = record { run = λ s h. Healthy-any h }
  hev_opened-Loaded (some handle) error = resolve_hev-Loaded handle

  open_hev-Loaded : Triple C (Healthy no_hev) (Engines.open_hev env) (Loaded hev)
  unfolding Engines.open_hev
  open_hev-Loaded = Triple->>= (Triple-of_Keeps (Keeps-open_library env _)) λ opened.
      Triple->>= (Triple-of_Keeps (Keeps-dlerror env)) λ error. hev_opened-Loaded opened error

  pub load_hev_core-Loaded :
      {k : Known} → Triple C (Healthy k) (Engines.load_hev_core env) (Loaded hev)
  unfolding Engines.load_hev_core ◌>>=◌ gets pure
  load_hev_core-Loaded {k} = record {
    run = λ s h. by_handle s h (Bool-cases (is_some s.hev.handle));
  }
    where
      by_handle :
          (s : Bridge)
          → Healthy k s
          → (is_some s.hev.handle ≡ true) ⊎ (is_some s.hev.handle ≡ false)
          → Ensures C (Loaded hev) (Engines.load_hev_core env s)
      by_handle s h (inl e) = let (a, b) = h.hev_symbols e in rw (e, a, b) (known hev s h e)
      by_handle s h (inr e) = rw e (open_hev-Loaded.run s (known no_hev s h (rw e)))

  resolve_singbox-Loaded :
      (handle : ℕ)
      → Triple C (Healthy no_singbox) (Singbox.resolve_singbox env handle) (Loaded singbox)
  unfolding Singbox.resolve_singbox Calls.dlsym Singbox.set_singbox ◌>>=◌ ◌>>◌ ask modify pure
  resolve_singbox-Loaded handle = record { run = λ s h. ground arith }

  pub Keeps-open_singbox : {k : Known} → Keeps C (Healthy k) (Singbox.open_singbox env)
  unfolding Singbox.open_singbox
  Keeps-open_singbox {k} = Keeps->>= (Keeps-open_library env _) by_handle
    where
      by_handle : (opened : Option ℕ) → Keeps C (Healthy k) (Singbox.singbox_opened env opened)
      by_handle none = unfold Singbox.singbox_opened in search (keeps_rules, Keeps-dlerror env)
      by_handle (some handle) = unfold Singbox.singbox_opened in Keeps-pure _

  resolve_opened-Loaded :
      (opened : Try ℕ)
      → Triple C (Healthy no_singbox) (Singbox.resolve_opened env opened) (Loaded singbox)
  unfolding Singbox.resolve_opened pure
  resolve_opened-Loaded (failure e) = record { run = λ s h. Healthy-any h }
  resolve_opened-Loaded (success handle) =
      Triple->>= (Triple-of_Keeps (Keeps-dlerror env)) λ _. resolve_singbox-Loaded handle

  pub load_singbox_core-Loaded :
      {k : Known} → Triple C (Healthy k) (Singbox.load_singbox_core env) (Loaded singbox)
  unfolding Singbox.load_singbox_core ◌>>=◌ gets pure
  load_singbox_core-Loaded {k} = record {
    run = λ s h. by_handle s h (Bool-cases (is_some s.singbox.handle));
  }
    where
      by_handle :
          (s : Bridge)
          → Healthy k s
          → (is_some s.singbox.handle ≡ true) ⊎ (is_some s.singbox.handle ≡ false)
          → Ensures C (Loaded singbox) (Singbox.load_singbox_core env s)
      by_handle s h (inl e) =
          let (a, b, c) = h.singbox_symbols e in rw (e, a, b, c) (known singbox s h e)
      by_handle s h (inr e) = rw e (
          (Triple->>= (Triple-of_Keeps Keeps-open_singbox) resolve_opened-Loaded).run s
            (known no_singbox s h (rw e)))
