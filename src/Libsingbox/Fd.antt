-- ===== src/Libsingbox/Fd.antt =====
-- The TUN fd: what `CGoSetTunFd` stores is what `OpenTun` hands out.
use hey.Prelude.{
  ℕ, List, [], ◌∷◌, Bool, true, false, Option, none, some, ◌≡◌, refl, ℤ, ltb_ℤ, pos, if◌then◌else◌,
  All,
}
use hey.Codec.Text.{Text}
use hey.Bridge.Monad.{Try, success, failure}
use hey.Libsingbox
use hey.Libsingbox.{
  Packages, Core, Go, G, Called, BoxEvent, Request, Response, StartRequest, returns, panics, waits,
  give, then_go, with_lock, ask_box, set_service, fresh,
}
use hey.Libsingbox.Branches.{Runs-start_locked, Runs-stop_locked, Runs-cgo_start_sing_box}
use hey.Libsingbox.Service.{Ready}
use hey.Libsingbox.Requests.{serve_all-Ready}
use hey.Libsingbox.Rules.{Ends, Runs, Runs-give, Runs-then, Runs-ask_box, Runs-with_lock}

abbrev Keeps {ℓ} : {A : Type ℓ} → (Core → Type 0) → G A → Type ℓ
Keeps I m = Runs Unit I m (λ _. I) I

abbrev Saved : ℤ → Core → Type 0
Saved fd c = c.saved_tun_fd ≡ fd

-- The requests that do not store an fd.
pub data Leaves : Request → Type 0 where
  leaves_version : Leaves Libsingbox.asks_version
  leaves_stop : Leaves Libsingbox.asks_stop
  leaves_open : Leaves Libsingbox.asks_open
  leaves_start : (s : Text) → Leaves (Libsingbox.asks_start s)

module _ (fd : ℤ) where
  Keeps-with_lock {ℓ} : {A : Type ℓ} {m : G A} → Keeps (Saved fd) m → Keeps (Saved fd) (with_lock m)
  Keeps-with_lock h = Runs-with_lock h (λ c i. ((λ e. tt), i)) (λ a d i. i) (λ d i. i)

  Keeps-ask_box {ℓ} :
      {A : Type ℓ} (f : List BoxEvent → Called A) (e : Called A → BoxEvent)
      → Keeps (Saved fd) (ask_box f e)
  Keeps-ask_box f e = Runs-ask_box f e (λ c x q i. i) (λ c x q i. i) (λ c r q i. i)

  Keeps-give {ℓ} : {A : Type ℓ} (a : A) → Keeps (Saved fd) (give a)
  Keeps-give a = Runs-give a λ c i. i

  Keeps-set_service : (s : Option ℕ) → Keeps (Saved fd) (set_service s)
  unfolding set_service
  Keeps-set_service s = record { run = λ c i. i }

  module _ (go : Packages) where
    Keeps-open_tun : Keeps (Saved fd) (Libsingbox.open_tun go)
    unfolding Libsingbox.open_tun
    Keeps-open_tun = Runs-then (Keeps-with_lock (record { run = λ c i. i })) λ r. Keeps-give _

    Keeps-start_service : (svc : ℕ) → Keeps (Saved fd) (Libsingbox.start_service go svc)
    unfolding Libsingbox.start_service
    Keeps-start_service svc =
        Runs-then {Q = λ _. Saved fd} (record { run = λ c i. opens (go.opens_tun c.asked svc) c i })
          λ tun. Keeps-ask_box _ _
      where
        opens :
            (b : Bool) (c : Core)
            → Saved fd c
            → Ends Unit
                (λ _. Saved fd)
                (Saved fd)
                (if b
                  then then_go (Libsingbox.open_tun go) (λ r. give (some r)) c
                  else returns none c)
        opens true c i = (Runs-then Keeps-open_tun λ r. Keeps-give (some r)).run c i
        opens false c i = i

    Keeps-keep_service :
        (svc : ℕ) (begun : Try (Unit {0})) → Keeps (Saved fd) (Libsingbox.keep_service go svc begun)
    unfolding Libsingbox.keep_service
    Keeps-keep_service svc (failure err) = Keeps-give _
    Keeps-keep_service svc (success x) = Runs-then (Keeps-set_service _) λ _. Keeps-give _

    Keeps-run_service : (service : Try ℕ) → Keeps (Saved fd) (Libsingbox.run_service go service)
    unfolding Libsingbox.run_service
    Keeps-run_service (failure err) = Keeps-give _
    Keeps-run_service (success svc) = Runs-then (Keeps-start_service svc) (Keeps-keep_service svc)

    Keeps-make_service :
        (req : StartRequest) (ready : Try (Unit {0}))
        → Keeps (Saved fd) (Libsingbox.make_service go req ready)
    unfolding Libsingbox.make_service
    Keeps-make_service req (failure err) = Keeps-give _
    Keeps-make_service req (success x) = Runs-then (Keeps-ask_box _ _) Keeps-run_service

    Keeps-start_locked : (req : StartRequest) → Keeps (Saved fd) (Libsingbox.start_locked go req)
    Keeps-start_locked req =
        Runs-start_locked go {P' = Saved fd} req (λ c e i. i) (λ c e i. i) begins
      where
        begins : Keeps (Saved fd) (Libsingbox.begin_service go req)
        begins =
            unfold Libsingbox.begin_service in
            Runs-then (Keeps-ask_box _ _) (Keeps-make_service req)

    Keeps-start : (s : Text) → Keeps (Saved fd) (Libsingbox.cgo_start_sing_box go s)
    Keeps-start s =
        Runs-cgo_start_sing_box go {E = Saved fd} s (λ err c e i. i)
          (λ req e. Keeps-with_lock (Keeps-start_locked req)) λ err c i. i

    Keeps-stop : Keeps (Saved fd) (Libsingbox.cgo_stop_sing_box go)
    unfolding Libsingbox.cgo_stop_sing_box
    Keeps-stop =
        Keeps-with_lock
          (Runs-stop_locked go {P' = λ svc. Saved fd} (λ c e i. i) (λ c svc e i. i) closes)
      where
        closes : (svc : ℕ) → Keeps (Saved fd) (Libsingbox.close_service go svc)
        closes svc =
            unfold Libsingbox.close_service in
            Runs-then (Keeps-ask_box _ _) λ t. Runs-then (Keeps-set_service none) λ _. Keeps-give _

    Keeps-serve : (q : Request) → Leaves q → Keeps (Saved fd) (Libsingbox.serve go q)
    unfolding Libsingbox.serve Libsingbox.cgo_sing_box_version
    Keeps-serve q leaves_version = Runs-then (Keeps-give _) λ s. Keeps-give _
    Keeps-serve q leaves_stop = Runs-then Keeps-stop λ s. Keeps-give _
    Keeps-serve q leaves_open = Runs-then Keeps-open_tun λ s. Keeps-give _
    Keeps-serve q (leaves_start s) = Runs-then (Keeps-start s) λ r. Keeps-give _

    Keeps-serve_all :
        (qs : List Request) → All Leaves qs → Keeps (Saved fd) (Libsingbox.serve_all go qs)
    unfolding Libsingbox.serve_all
    Keeps-serve_all [] h = Keeps-give _
    Keeps-serve_all (q ∷ qs) (h, k) =
        Runs-then (Keeps-serve q h) λ r. Runs-then (Keeps-serve_all qs k) λ rs. Keeps-give _

both_ends {ℓ} :
    {A : Type ℓ} (W X : Type 0) (P Q : Core → Type 0) (o : Go A)
    → Ends W (λ _. P) (λ c. X) o
    → Ends Unit (λ _. Q) Q o
    → Ends W (λ _ c. P c × Q c) (λ c. X) o
both_ends W X P Q (returns a d) h k = (h, k)
both_ends W X P Q (panics r d) h k = h
both_ends W X P Q (waits d) h k = h

weaken_ends {ℓ} :
    {A : Type ℓ} (W X : Type 0) (P Q : Core → Type 0) (o : Go A)
    → ((c : Core) → P c → Q c)
    → Ends W (λ _. P) (λ c. X) o
    → Ends W (λ _. Q) (λ c. X) o
weaken_ends W X P Q (returns a d) k h = k d h
weaken_ends W X P Q (panics r d) k h = h
weaken_ends W X P Q (waits d) k h = h

-- What `OpenTun` hands out, and leaves behind.
abbrev pub Hands : Packages → ℤ → Core → Type 0
Hands go fd c = Libsingbox.open_tun go c ≡ returns (if ltb_ℤ fd (pos 0) then none else some fd) c

hands : (go : Packages) (fd : ℤ) (c : Core) → Ready c × Saved fd c → Hands go fd c
unfolding Libsingbox.open_tun with_lock then_go give
hands go fd c h = rw (h.0.0, h.1) refl

-- From the load of libsingbox, once `CGoSetTunFd` has stored an fd, and whatever other requests follow,
-- `OpenTun` hands out this fd, or an error where it is negative, and changes nothing; unless one of the
-- requests waits forever in a start that opens the TUN, or panics in a close.
pub cgo_set_tun_fd-open_tun :
    (go : Packages) {W X : Type 0} (fd : ℤ) (qs : List Request)
    → ((t : List BoxEvent) (svc : ℕ) → go.opens_tun t svc ≡ true → W)
    → ((t : List BoxEvent) (svc : ℕ) (r : Text) → go.close t svc ≡ Libsingbox.panicked r → X)
    → All Leaves qs
    → Ends W
        (λ _. Hands go fd)
        (λ c. X)
        (Libsingbox.serve_all go (Libsingbox.asks_set_tun_fd fd ∷ qs) fresh)
cgo_set_tun_fd-open_tun go {W} {X} fd qs tun crash h =
    let o = Libsingbox.serve_all go (Libsingbox.asks_set_tun_fd fd ∷ qs) fresh in
    weaken_ends W X (λ c. Ready c × Saved fd c) (Hands go fd) o (hands go fd)
      (both_ends W X Ready (Saved fd) o
        (serve_all-Ready go tun crash (Libsingbox.asks_set_tun_fd fd ∷ qs)) saved)
  where
    saved :
        Ends Unit
          (λ _. Saved fd)
          (Saved fd)
          (Libsingbox.serve_all go (Libsingbox.asks_set_tun_fd fd ∷ qs) fresh)
    saved =
        unfold Libsingbox.serve_all Libsingbox.serve Libsingbox.cgo_set_tun_fd with_lock then_go
          give in
        (Runs-then (Keeps-serve_all fd go qs h) λ rs. Keeps-give fd _).run
          (record fresh { saved_tun_fd = fd }) refl
