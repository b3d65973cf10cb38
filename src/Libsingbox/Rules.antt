-- ===== src/Libsingbox/Rules.antt =====
-- Rules for the wrapper's code: what holds where it returns and where it panics, and what a wait for
-- `mu` is to give.
use hey.Prelude.{List, ◌∷◌, Bool, true, false, ◌≡◌, refl, if◌then◌else◌}
use hey.Codec.Text.{Text}
use hey.Bridge.Monad.{Try, success, failure}
use hey.Libsingbox
use hey.Libsingbox.{
  Core, Go, G, Called, BoxEvent, returns, panics, waits, give, then_go, with_lock, ask_box,
}

abbrev pub Ends {ℓ} : {A : Type ℓ} → Type 0 → (A → Core → Type 0) → (Core → Type 0) → Go A → Type 0
Ends W Q E (returns a c) = Q a c
Ends W Q E (panics r c) = E c
Ends W Q E (waits c) = W

pub record Runs {ℓ} (W : Type 0) (P : Core → Type 0) {A : Type ℓ} (m : G A) (Q : A → Core → Type 0)
    (E : Core → Type 0) : Type ℓ where
  pub run : (c : Core) → P c → Ends W Q E (m c)

pub Runs-give {ℓ} :
    {A : Type ℓ} {W : Type 0} {P : Core → Type 0} {Q : A → Core → Type 0} {E : Core → Type 0}
    (a : A)
    → ((c : Core) → P c → Q a c)
    → Runs W P (give a) Q E
unfolding give
Runs-give a h = record { run = h }

then_ends {ℓ κ} :
    {A : Type ℓ} {B : Type κ} {W : Type 0} {Q : A → Core → Type 0} {R : B → Core → Type 0}
    {E : Core → Type 0} (f : A → G B) (o : Go A)
    → ((a : A) → Runs W (Q a) (f a) R E)
    → Ends W Q E o
    → Ends W R E (elim o [ returns a d ↦ f a d | panics r d ↦ panics r d | waits d ↦ waits d ])
then_ends f (returns a d) k h = (k a).run d h
then_ends f (panics r d) k h = h
then_ends f (waits d) k h = h

pub Runs-then {ℓ κ} :
    {A : Type ℓ} {B : Type κ} {W : Type 0} {P : Core → Type 0} {Q : A → Core → Type 0}
    {R : B → Core → Type 0} {E : Core → Type 0} {m : G A} {f : A → G B}
    → Runs W P m Q E
    → ((a : A) → Runs W (Q a) (f a) R E)
    → Runs W P (then_go m f) R E
unfolding then_go
Runs-then {m} {f} h k = record { run = λ c p. then_ends f (m c) k (h.run c p) }

-- An answer of libbox, of which failure is possible too.
asked {ℓ} :
    {A : Type ℓ} (W : Type 0) (Q : Try A → Core → Type 0) (E : Core → Type 0) (a : Called A)
    (d : Core)
    → ((x : A) → a ≡ Libsingbox.returned x → Q (success x) d)
    → ((e : Text) → a ≡ Libsingbox.failed e → Q (failure e) d)
    → ((r : Text) → a ≡ Libsingbox.panicked r → E d)
    → Ends W Q E (elim a [
      | Libsingbox.returned x ↦ returns (success x) d
      | Libsingbox.failed e ↦ returns (failure e) d
      | Libsingbox.panicked r ↦ panics r d
    ])
asked W Q E (Libsingbox.returned x) d h k l = h x refl
asked W Q E (Libsingbox.failed e) d h k l = k e refl
asked W Q E (Libsingbox.panicked r) d h k l = l r refl

pub Runs-ask_box {ℓ} :
    {A : Type ℓ} {W : Type 0} {P : Core → Type 0} {Q : Try A → Core → Type 0} {E : Core → Type 0}
    (f : List BoxEvent → Called A) (e : Called A → BoxEvent)
    → ((c : Core) (x : A)
        → f c.asked ≡ Libsingbox.returned x
        → P c
        → Q (success x) (record c { asked = e (f c.asked) ∷ c.asked }))
    → ((c : Core) (err : Text)
        → f c.asked ≡ Libsingbox.failed err
        → P c
        → Q (failure err) (record c { asked = e (f c.asked) ∷ c.asked }))
    → ((c : Core) (r : Text)
        → f c.asked ≡ Libsingbox.panicked r
        → P c
        → E (record c { asked = e (f c.asked) ∷ c.asked }))
    → Runs W P (ask_box f e) Q E
unfolding ask_box
Runs-ask_box {W} {Q} {E} f e h k l = record {
  run = λ c p.
      asked W Q E (f c.asked) (record c { asked = e (f c.asked) ∷ c.asked }) (λ x q. h c x q p)
        (λ err q. k c err q p) (λ r q. l c r q p);
}

unlocked {ℓ} :
    {A : Type ℓ} (W : Type 0) (Q R : A → Core → Type 0) (E F : Core → Type 0) (o : Go A)
    → ((a : A) (d : Core) → Q a d → R a (record d { locked = false }))
    → ((d : Core) → E d → F (record d { locked = false }))
    → Ends W Q E o
    → Ends W R F (elim o [
      | returns a d ↦ returns a (record d { locked = false })
      | panics r d ↦ panics r (record d { locked = false })
      | waits d ↦ waits d
    ])
unlocked W Q R E F (returns a d) h k e = h a d e
unlocked W Q R E F (panics r d) h k e = k d e
unlocked W Q R E F (waits d) h k e = e

lock_ends {ℓ} :
    {A : Type ℓ} (W : Type 0) (R : A → Core → Type 0) (F : Core → Type 0) (b : Bool) (c : Core)
    (o : Go A)
    → (b ≡ true → W)
    → Ends W R F o
    → Ends W R F (if b then waits c else o)
lock_ends W R F true c o w h = w refl
lock_ends W R F false c o w h = h

pub Runs-with_lock {ℓ} :
    {A : Type ℓ} {W : Type 0} {P P' : Core → Type 0} {Q R : A → Core → Type 0} {E F : Core → Type 0}
    {m : G A}
    → Runs W P' m Q E
    → ((c : Core) → P c → (c.locked ≡ true → W) × P' (record c { locked = true }))
    → ((a : A) (d : Core) → Q a d → R a (record d { locked = false }))
    → ((d : Core) → E d → F (record d { locked = false }))
    → Runs W P (with_lock m) R F
unfolding with_lock
Runs-with_lock {W} {Q} {R} {E} {F} {m} h p r e = record {
  run = λ c q. lock_ends W R F c.locked c _ (p c q).0 (
      unlocked W Q R E F (m (record c { locked = true })) r e
        (h.run (record c { locked = true }) (p c q).1));
}
