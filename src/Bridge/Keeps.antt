-- ===== src/Bridge/Keeps.antt =====
-- Invariants of the bridge's code: `Keeps` holds of a computation that takes every state of the
-- invariant to a state of it, and the rules follow the code.
use hey.Prelude.{ℕ, ◌≡◌, refl, is_some, Bool, true, false, Option, none, some, if◌then◌else◌}
use hey.Codec.Text.{Text}
use hey.Bridge.State.{Bridge}
use hey.Bridge.Monad.{Outcome, done, crashed, blocked, M, Try, success, failure, pure, ◌>>=◌, ◌>>◌}
use hey.Bridge.Monad.{gets, block}

-- How a call can fail to return: it goes through a null pointer, or joins a thread that never ends.
pub data Stop : Type 0 where
  null_call endless_join : Stop

-- What each stop is to give: the empty type where it is ruled out.
abbrev pub Allowed : Type 1
Allowed = Stop → Type 0

abbrev pub anything : Allowed
anything _ = Unit

abbrev pub no_crash : Allowed
no_crash null_call = ⊥
no_crash endless_join = Unit

abbrev pub no_stop : Allowed
no_stop _ = ⊥

-- The result satisfies `Q`, or the call stops in a way that is allowed.
abbrev pub Ensures {ℓ} : {A : Type ℓ} → Allowed → (A → Bridge → Type 0) → Outcome A → Type 0
Ensures C Q (done a s) = Q a s
Ensures C Q (crashed s) = C null_call
Ensures C Q (blocked s) = C endless_join

pub record Keeps {ℓ} (C : Allowed) (I : Bridge → Type 0) {A : Type ℓ} (m : M A) : Type ℓ where
  pub keeps : (s : Bridge) → I s → Ensures C (λ _ t. I t) (m s)

module _ {ℓ} {A : Type ℓ} {C : Allowed} {I : Bridge → Type 0} where
  pub Keeps-pure : (a : A) → Keeps C I (pure a)
  unfolding pure
  Keeps-pure a = record { keeps = λ s h. h }

  pub Keeps-gets : (f : Bridge → A) → Keeps C I (gets f)
  unfolding gets
  Keeps-gets f = record { keeps = λ s h. h }

  pub Keeps-block : C endless_join → Keeps C I (block {A = A})
  unfolding block
  Keeps-block c = record { keeps = λ s h. c }

  pub Keeps-if : (b : Bool) {m n : M A} → Keeps C I m → Keeps C I n → Keeps C I (if b then m else n)
  Keeps-if true h k = h
  Keeps-if false h k = k

-- A test that returns early, with what it says of the branch behind it.
pub Keeps-unless {ℓ} :
    {A : Type ℓ} {C : Allowed} {I : Bridge → Type 0} (b : Bool) {m n : M A}
    → Keeps C I m
    → (b ≡ false → Keeps C I n)
    → Keeps C I (if b then m else n)
Keeps-unless true h k = h
Keeps-unless false h k = k refl

bind {ℓ κ} :
    {A : Type ℓ} {B : Type κ} {C : Allowed} {I : Bridge → Type 0} (f : A → M B) (o : Outcome A)
    → ((a : A) → Keeps C I (f a))
    → Ensures C (λ _ t. I t) o
    → Ensures C
        (λ _ t. I t)
        (elim o [ done a t ↦ f a t | crashed t ↦ crashed t | blocked t ↦ blocked t ])
bind f (done a s) k h = (k a).keeps s h
bind f (crashed s) k h = h
bind f (blocked s) k h = h

pub Keeps->>= {ℓ κ} :
    {A : Type ℓ} {B : Type κ} {C : Allowed} {I : Bridge → Type 0} {m : M A} {f : A → M B}
    → Keeps C I m
    → ((a : A) → Keeps C I (f a))
    → Keeps C I (m >>= f)
unfolding ◌>>=◌
Keeps->>= {m} {f} h k = record { keeps = λ s i. bind f (m s) k (h.keeps s i) }

pub Keeps->> {κ} :
    {B : Type κ} {C : Allowed} {I : Bridge → Type 0} {m : M (Unit {0})} {n : M B}
    → Keeps C I m
    → Keeps C I n
    → Keeps C I (m >> n)
unfolding ◌>>◌
Keeps->> h k = Keeps->>= h (λ _. k)

symbol_at {ℓ} :
    {B : Type ℓ} (C : Allowed) (I : Bridge → Type 0) (o : Option ℕ) (f : Option ℕ → M B)
    (s : Bridge)
    → is_some o ≡ true
    → ((p : ℕ) → Keeps C I (f (some p)))
    → I s
    → Ensures C (λ _ t. I t) (f o s)
symbol_at C I none f s e k h = cc
symbol_at C I (some p) f s e k h = (k p).keeps s h

-- A symbol that the invariant says to be resolved.
pub Keeps-symbol {ℓ} :
    {B : Type ℓ} {C : Allowed} {I : Bridge → Type 0} (get : Bridge → Option ℕ) (f : Option ℕ → M B)
    → ((s : Bridge) → I s → is_some (get s) ≡ true)
    → ((p : ℕ) → Keeps C I (f (some p)))
    → Keeps C I (gets get >>= f)
unfolding ◌>>=◌ gets
Keeps-symbol {C} {I} get f known k = record {
  keeps = λ s h. symbol_at C I (get s) f s (known s h) k h;
}

-- The same with a condition before and one after, on the result and the state.
pub record Triple {ℓ} (C : Allowed) (P : Bridge → Type 0) {A : Type ℓ} (m : M A)
    (Q : A → Bridge → Type 0) : Type ℓ where
  pub run : (s : Bridge) → P s → Ensures C Q (m s)

pub Triple-of_Keeps {ℓ} :
    {A : Type ℓ} {C : Allowed} {I : Bridge → Type 0} {m : M A} → Keeps C I m → Triple C I m (λ _. I)
Triple-of_Keeps h = record { run = λ s i. h.keeps s i }

pub Keeps-of_Triple {ℓ} :
    {A : Type ℓ} {C : Allowed} {I : Bridge → Type 0} {m : M A} → Triple C I m (λ _. I) → Keeps C I m
Keeps-of_Triple h = record { keeps = λ s i. h.run s i }

bind_triple {ℓ κ} :
    {A : Type ℓ} {B : Type κ} (C : Allowed) (Q : A → Bridge → Type 0) (R : B → Bridge → Type 0)
    (f : A → M B) (o : Outcome A)
    → ((a : A) → Triple C (Q a) (f a) R)
    → Ensures C Q o
    → Ensures C R (elim o [ done a t ↦ f a t | crashed t ↦ crashed t | blocked t ↦ blocked t ])
bind_triple C Q R f (done a s) k h = (k a).run s h
bind_triple C Q R f (crashed s) k h = h
bind_triple C Q R f (blocked s) k h = h

pub Triple->>= {ℓ κ} :
    {A : Type ℓ} {B : Type κ} {C : Allowed} {P : Bridge → Type 0} {Q : A → Bridge → Type 0}
    {R : B → Bridge → Type 0} {m : M A} {f : A → M B}
    → Triple C P m Q
    → ((a : A) → Triple C (Q a) (f a) R)
    → Triple C P (m >>= f) R
unfolding ◌>>=◌
Triple->>= {C} {Q} {R} {m} {f} h k = record { run = λ s p. bind_triple C Q R f (m s) k (h.run s p) }

weaken {ℓ} :
    {A : Type ℓ} (C : Allowed) (Q R : A → Bridge → Type 0) (o : Outcome A)
    → ((a : A) (t : Bridge) → Q a t → R a t)
    → Ensures C Q o
    → Ensures C R o
weaken C Q R (done a s) w h = w a s h
weaken C Q R (crashed s) w h = h
weaken C Q R (blocked s) w h = h

pub Triple-weaken {ℓ} :
    {A : Type ℓ} {C : Allowed} {P : Bridge → Type 0} {Q R : A → Bridge → Type 0} {m : M A}
    → Triple C P m Q
    → ((a : A) (t : Bridge) → Q a t → R a t)
    → Triple C P m R
Triple-weaken {C} {Q} {R} {m} h w = record { run = λ s p. weaken C Q R (m s) w (h.run s p) }

module _ {ℓ κ} {A : Type ℓ} {B : Type κ} {C : Allowed} {I : Bridge → Type 0} where
  pub Keeps-option :
      (o : Option B) {n : M A} {f : B → M A}
      → Keeps C I n
      → ((b : B) → Keeps C I (f b))
      → Keeps C I (elim o [ none ↦ n | some b ↦ f b ])
  Keeps-option none h k = h
  Keeps-option (some b) h k = k b

  pub Keeps-try :
      (t : Try B) {n : Text → M A} {f : B → M A}
      → ((e : Text) → Keeps C I (n e))
      → ((b : B) → Keeps C I (f b))
      → Keeps C I (elim t [ failure e ↦ n e | success b ↦ f b ])
  Keeps-try (failure e) h k = h e
  Keeps-try (success b) h k = k b

pub ruleset keeps_rules =
    (Keeps-pure, Keeps-gets, Keeps-block, Keeps-if, Keeps->>=, Keeps->>, Keeps-option, Keeps-try)
