-- ===== src/Behaviour/Answers.antt =====
-- Rules for what a handler's answer says of the globals afterwards: the answer is the last message,
-- and success implies a predicate.
use hey.Bridge.Keeps.{Allowed, anything}
use hey.Prelude.{◌∷◌, ◌≡◌, refl, Bool, true, false, not, if◌then◌else◌, arith}
use hey.Codec.Text.{Text, c_str}
use hey.Bridge.State.{Env, Bridge, Level}
use hey.Bridge.State
use hey.Bridge.Monad.{
  M, Outcome, done, crashed, blocked, Try, success, failure, pure, gets, modify, emit, ◌>>=◌, ◌>>◌,
}
use hey.Bridge.Calls
use hey.Bridge.Calls.{NapiResult}
use hey.Bridge.Keeps.{Ensures, Keeps}
use hey.Xray
use hey.Singbox
use hey.Tun
use hey.Health.Invariant.{any, Healthy}

-- What a result says of the state it is returned in.
abbrev pub Claim : Type 1
Claim = NapiResult → Bridge → Type 0

-- `g_lastMessage` is the returned message, and success implies the predicate.
abbrev pub Says : (Bridge → Type 0) → Claim
Says P r t = (t.last_message ≡ r.message) × (r.ok ≡ true → P t)

pub both {ℓ} :
    {A : Type ℓ} (C : Allowed) (P : Bridge → Type 0) (Q : A → Bridge → Type 0) (o : Outcome A)
    → Ensures C (λ _ t. P t) o
    → Ensures anything Q o
    → Ensures C (λ a t. P t × Q a t) o
both C P Q (done a s) h k = (h, k)
both C P Q (crashed s) h k = h
both C P Q (blocked s) h k = h

-- A computation that returns only results of `Q`.
pub record Always {ℓ} {A : Type ℓ} (Q : A → Bridge → Type 0) (m : M A) : Type ℓ where
  pub run : (s : Bridge) → Ensures anything Q (m s)

after {ℓ κ} :
    {A : Type ℓ} {B : Type κ} (Q : B → Bridge → Type 0) (f : A → M B) (o : Outcome A)
    → ((a : A) → Always Q (f a))
    → Ensures anything Q
        (elim o [ done a t ↦ f a t | crashed t ↦ crashed t | blocked t ↦ blocked t ])
after Q f (done a s) k = (k a).run s
after Q f (crashed s) k = tt
after Q f (blocked s) k = tt

pub Always->>= {ℓ κ} :
    {A : Type ℓ} {B : Type κ} {Q : B → Bridge → Type 0} (m : M A) (f : A → M B)
    → ((a : A) → Always Q (f a))
    → Always Q (m >>= f)
unfolding ◌>>=◌
Always->>= {Q} m f k = record { run = λ s. after Q f (m s) k }

pub Always->> {κ} :
    {B : Type κ} {Q : B → Bridge → Type 0} (m : M (Unit {0})) (n : M B)
    → Always Q n
    → Always Q (m >> n)
unfolding ◌>>◌
Always->> m n k = Always->>= m (λ _. n) (λ _. k)

pub Always-if {ℓ} :
    {A : Type ℓ} {Q : A → Bridge → Type 0} (b : Bool) {m n : M A}
    → Always Q m
    → Always Q n
    → Always Q (if b then m else n)
Always-if true h k = h
Always-if false h k = k

pub Always-try {ℓ κ} :
    {A : Type ℓ} {B : Type κ} {Q : B → Bridge → Type 0} (t : Try A) {n : Text → M B} {f : A → M B}
    → ((e : Text) → Always Q (n e))
    → ((a : A) → Always Q (f a))
    → Always Q (elim t [ failure e ↦ n e | success a ↦ f a ])
Always-try (failure e) h k = h e
Always-try (success a) h k = k a

-- A computation whose answer says `P` of the state afterwards.
abbrev pub Answers : (Bridge → Type 0) → M NapiResult → Type 0
Answers P m = Always (Says P) m

pub Answers-failure :
    {P : Bridge → Type 0} (message : Text) → Answers P (Calls.create_result false message)
unfolding Calls.create_result Calls.log modify emit pure ◌>>=◌ ◌>>◌
Answers-failure message = record { run = λ s. (refl, λ e. cc) }

pub Answers-xray_failed :
    {P : Bridge → Type 0} (message : Text) → Answers P (Xray.xray_failed message)
unfolding Xray.xray_failed
Answers-xray_failed message = Always->> _ _ (Answers-failure message)

pub Answers-tun_failed :
    {P : Bridge → Type 0} (message : Text) → Answers P (Xray.tun_failed message)
unfolding Xray.tun_failed
Answers-tun_failed message = Always->> _ _ (Answers-failure message)

pub Answers-singbox_failed :
    {P : Bridge → Type 0} (message : Text) → Answers P (Singbox.singbox_failed message)
unfolding Singbox.singbox_failed
Answers-singbox_failed message = Always->> _ _ (Answers-failure message)

pub Answers-load_failed :
    {P : Bridge → Type 0} (message : Text) → Answers P (Tun.load_failed message)
unfolding Tun.load_failed
Answers-load_failed message = Always->> _ _ (Always->> _ _ (Answers-failure message))

pub ruleset answers_rules = (
  Always->>=, Always->>, Always-if, Always-try, Answers-failure, Answers-xray_failed,
  Answers-tun_failed, Answers-singbox_failed, Answers-load_failed,
)

at_flag :
    (P : Bridge → Type 0) (m n : M NapiResult) (b : Bool) (s : Bridge)
    → (b ≡ true → Ensures anything (Says P) (m s))
    → (b ≡ false → Ensures anything (Says P) (n s))
    → Ensures anything (Says P) ((if b then m else n) s)
at_flag P m n true s h k = h refl
at_flag P m n false s h k = k refl

-- A test of a global, with what it says of the state on the branch taken.
pub Answers-set :
    {P : Bridge → Type 0} (flag : Bridge → Bool) (m n : M NapiResult)
    → ((s : Bridge) → flag s ≡ true → Ensures anything (Says P) (m s))
    → Answers P n
    → Answers P (gets flag >>= λ b. if b then m else n)
unfolding gets ◌>>=◌
Answers-set {P} flag m n h k = record { run = λ s. at_flag P m n (flag s) s (h s) (λ _. k.run s) }

pub Answers-clear :
    {P : Bridge → Type 0} (flag : Bridge → Bool) (m n : M NapiResult)
    → ((s : Bridge) → flag s ≡ false → Ensures anything (Says P) (m s))
    → Answers P n
    → Answers P (gets flag >>= λ b. if not b then m else n)
unfolding gets ◌>>=◌
Answers-clear {P} flag m n h k = record {
  run = λ s. at_flag P m n (not (flag s)) s (λ e. h s (ground arith)) (λ _. k.run s);
}

-- `create_result true` where the predicate holds already.
pub success_here :
    (P : Bridge → Type 0) (message : Text) (s : Bridge)
    → P (record s {
      last_message = message;
      trace = State.logged Level.info (c_str message) ∷ s.trace;
    })
    → Ensures anything (Says P) (Calls.create_result true message s)
unfolding Calls.create_result Calls.log modify emit pure ◌>>=◌ ◌>>◌
success_here P message s h = (refl, λ _. h)

-- A handler that keeps the invariant, and returns only results of `Q`.
pub Always-Healthy {ℓ} :
    {A : Type ℓ} (C : Allowed) {Q : A → Bridge → Type 0} {m : M A}
    → Keeps C (Healthy any) m
    → Always Q m
    → (s : Bridge) → Healthy any s
    → Ensures C (λ r t. Healthy any t × Q r t) (m s)
Always-Healthy C {Q} {m} h k s i = both C (Healthy any) Q (m s) (h.keeps s i) (k.run s)
