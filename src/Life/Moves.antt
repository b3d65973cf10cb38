-- ===== src/Life/Moves.antt =====
-- Rules for how a computation moves the life, from a known one.
use hey.Prelude.{◌≡◌, refl, ap, sym, ◌∙◌, Bool, true, false, not, if◌then◌else◌}
use hey.Codec.Text.{Text}
use hey.Bridge.State.{Bridge}
use hey.Bridge.Monad.{
  M, Try, success, failure, Outcome, done, crashed, blocked, gets, modify, pure, emit, ◌>>=◌, ◌>>◌,
}
use hey.Bridge.Calls
use hey.Bridge.Calls.{NapiResult}
use hey.Bridge.Keeps.{Ensures, Keeps, anything}
use hey.Frame.{Frame, Loud}
use hey.Life.{Life, life}

pub life-IsFrame : (a : Life) → Frame (λ s. life s ≡ a)
life-IsFrame a = record {
  of_event = λ e s v h. h;
  of_env_set = λ value s h. h;
  of_xray = λ x s h. h;
  of_singbox = λ x s h. h;
  of_tun2socks = λ x s h. h;
  of_hev = λ x s e h. h;
}

pub life-IsLoud : (a : Life) → Loud (λ s. life s ≡ a)
life-IsLoud a = record {
  frame = life-IsFrame a;
  of_message = λ message s h. h;
  of_bytes = λ up down s h. h;
}

-- From the life `a`, the result and the life after it satisfy `Q`.
pub record Moves {ℓ} (a : Life) {A : Type ℓ} (Q : A → Life → Type 0) (m : M A) : Type ℓ where
  pub run : (s : Bridge) → life s ≡ a → Ensures anything (λ r t. Q r (life t)) (m s)

bind {ℓ κ} :
    {A : Type ℓ} {B : Type κ} {b : Life} (Q : B → Life → Type 0) (f : A → M B) (o : Outcome A)
    → ((x : A) → Moves b Q (f x))
    → Ensures anything (λ _ t. life t ≡ b) o
    → Ensures anything
        (λ r t. Q r (life t))
        (elim o [ done a t ↦ f a t | crashed t ↦ crashed t | blocked t ↦ blocked t ])
bind Q f (done x s) k h = (k x).run s h
bind Q f (crashed s) k h = tt
bind Q f (blocked s) k h = tt

-- What comes first leaves the life alone.
pub Moves->>= {ℓ κ} :
    {A : Type ℓ} {B : Type κ} {a : Life} {Q : B → Life → Type 0} {m : M A} {f : A → M B}
    → Keeps anything (λ s. life s ≡ a) m
    → ((x : A) → Moves a Q (f x))
    → Moves a Q (m >>= f)
unfolding ◌>>=◌
Moves->>= {Q} {m} {f} h k = record { run = λ s e. bind Q f (m s) k (h.keeps s e) }

pub Moves->> {κ} :
    {B : Type κ} {a : Life} {Q : B → Life → Type 0} {m : M (Unit {0})} {n : M B}
    → Keeps anything (λ s. life s ≡ a) m
    → Moves a Q n
    → Moves a Q (m >> n)
unfolding ◌>>◌
Moves->> h k = Moves->>= h (λ _. k)

-- A store of globals, with the life that it leads to.
pub Moves-store {κ} :
    {B : Type κ} {a : Life} {Q : B → Life → Type 0} (b : Life) (g : Bridge → Bridge) {n : M B}
    → ((s : Bridge) → life s ≡ a → life (g s) ≡ b)
    → Moves b Q n
    → Moves a Q (modify g >> n)
unfolding modify ◌>>=◌ ◌>>◌
Moves-store b g e k = record { run = λ s h. k.run (g s) (e s h) }

-- A test of a global whose value the life has.
pub Moves-test {ℓ} :
    {B : Type ℓ} {a : Life} {Q : B → Life → Type 0} (get : Bridge → Bool) (of : Life → Bool)
    {m n : M B}
    → ((s : Bridge) → get s ≡ of (life s))
    → (of a ≡ true → Moves a Q m)
    → (of a ≡ false → Moves a Q n)
    → Moves a Q (gets get >>= λ b. if b then m else n)
unfolding gets ◌>>=◌
Moves-test {a} {Q} get of {m} {n} same h k = record {
  run = λ s e. at s e (get s) (same s ∙ ap of e);
}
  where
    at :
        (s : Bridge)
        → life s ≡ a
        → (b : Bool) → b ≡ of a
        → Ensures anything (λ r t. Q r (life t)) ((if b then m else n) s)
    at s e true p = (h (sym p)).run s e
    at s e false p = (k (sym p)).run s e

-- A read of a global whose value the life has.
pub Moves-read {ℓ κ} :
    {A : Type ℓ} {B : Type κ} {a : Life} {Q : B → Life → Type 0} (get : Bridge → A) (of : Life → A)
    (f : A → M B)
    → ((s : Bridge) → get s ≡ of (life s))
    → Moves a Q (f (of a))
    → Moves a Q (gets get >>= f)
unfolding gets ◌>>=◌
Moves-read {a} {Q} get of f same h = record {
  run = λ s e. let same_here : get s ≡ of a = same s ∙ ap of e in rw same_here (h.run s e);
}

-- The same, where the code tests the negation.
pub Moves-test_not {ℓ} :
    {B : Type ℓ} {a : Life} {Q : B → Life → Type 0} (get : Bridge → Bool) (of : Life → Bool)
    {m n : M B}
    → ((s : Bridge) → get s ≡ of (life s))
    → (of a ≡ false → Moves a Q m)
    → (of a ≡ true → Moves a Q n)
    → Moves a Q (gets get >>= λ b. if not b then m else n)
unfolding gets ◌>>=◌
Moves-test_not {a} {Q} get of {m} {n} same h k = record {
  run = λ s e. at s e (get s) (same s ∙ ap of e);
}
  where
    at :
        (s : Bridge)
        → life s ≡ a
        → (b : Bool) → b ≡ of a
        → Ensures anything (λ r t. Q r (life t)) ((if not b then m else n) s)
    at s e true p = (k (sym p)).run s e
    at s e false p = (h (sym p)).run s e

pub Moves-if {ℓ} :
    {B : Type ℓ} {a : Life} {Q : B → Life → Type 0} (b : Bool) {m n : M B}
    → Moves a Q m
    → Moves a Q n
    → Moves a Q (if b then m else n)
Moves-if true h k = h
Moves-if false h k = k

pub Moves-unless {ℓ} :
    {B : Type ℓ} {a : Life} {Q : B → Life → Type 0} (b : Bool) {m n : M B}
    → Moves a Q m
    → (b ≡ false → Moves a Q n)
    → Moves a Q (if b then m else n)
Moves-unless true h k = h
Moves-unless false h k = k refl

pub Moves-try {ℓ κ} :
    {A : Type ℓ} {B : Type κ} {a : Life} {Q : B → Life → Type 0} (t : Try A) {n : Text → M B}
    {f : A → M B}
    → ((e : Text) → Moves a Q (n e))
    → ((x : A) → Moves a Q (f x))
    → Moves a Q (elim t [ failure e ↦ n e | success x ↦ f x ])
Moves-try (failure e) h k = h e
Moves-try (success x) h k = k x

pub Moves-result :
    {a : Life} {Q : NapiResult → Life → Type 0} (ok : Bool) (message : Text)
    → Q (record { ok = ok; message = message }) a
    → Moves a Q (Calls.create_result ok message)
unfolding Calls.create_result Calls.log modify emit pure ◌>>=◌ ◌>>◌
Moves-result {Q} ok message h = record { run = λ s e. rw e h }

pub Moves-pure {ℓ} :
    {A : Type ℓ} {a : Life} {Q : A → Life → Type 0} (x : A) → Q x a → Moves a Q (pure x)
unfolding pure
Moves-pure {a} {Q} x h = record { run = λ s e. rw e h }

onwards {ℓ κ} :
    {A : Type ℓ} {B : Type κ} (P : A → Life → Type 0) (Q : B → Life → Type 0) (f : A → M B)
    (o : Outcome A)
    → ((x : A) (b : Life) → P x b → Moves b Q (f x))
    → Ensures anything (λ r t. P r (life t)) o
    → Ensures anything
        (λ r t. Q r (life t))
        (elim o [ done a t ↦ f a t | crashed t ↦ crashed t | blocked t ↦ blocked t ])
onwards P Q f (done x s) k h = (k x (life s) h).run s refl
onwards P Q f (crashed s) k h = tt
onwards P Q f (blocked s) k h = tt

-- What comes first may move the life.
pub Moves-then {ℓ κ} :
    {A : Type ℓ} {B : Type κ} {a : Life} {P : A → Life → Type 0} {Q : B → Life → Type 0} {m : M A}
    {f : A → M B}
    → Moves a P m
    → ((x : A) (b : Life) → P x b → Moves b Q (f x))
    → Moves a Q (m >>= f)
unfolding ◌>>=◌
Moves-then {P} {Q} {m} {f} h k = record { run = λ s e. onwards P Q f (m s) k (h.run s e) }

pub Moves-map {ℓ κ} :
    {A : Type ℓ} {B : Type κ} {a : Life} {Q : B → Life → Type 0} (f : A → B) {m : M A}
    → Moves a (λ x b. Q (f x) b) m
    → Moves a Q (m >>= λ x. pure (f x))
Moves-map f h = Moves-then h (λ x b q. Moves-pure _ q)

pub Moves-of_Keeps {ℓ} :
    {A : Type ℓ} {a : Life} {Q : A → Life → Type 0} {m : M A}
    → Keeps anything (λ s. life s ≡ a) m
    → ((x : A) → Q x a)
    → Moves a Q m
Moves-of_Keeps {A} {a} {Q} {m} h q = record { run = λ s e. at (m s) (h.keeps s e) }
  where
    at :
        (o : Outcome A)
        → Ensures anything (λ _ t. life t ≡ a) o
        → Ensures anything (λ r t. Q r (life t)) o
    at (done x s) h = rw h (q x)
    at (crashed s) h = tt
    at (blocked s) h = tt
