-- ===== src/Bridge/Monad.antt =====
-- The bridge's code as state passing: a call returns, or the process crashes at a null function
-- pointer, or the calling thread waits forever in `join`.
use hey.Prelude.{◌∷◌}
use hey.Codec.Text.{Text}
use hey.Bridge.State.{Bridge, Event, Trace}

pub data Outcome {ℓ} (A : Type ℓ) : Type ℓ where
  done : A → Bridge → Outcome A
  crashed : Bridge → Outcome A
  blocked : Bridge → Outcome A

abbrev pub M {ℓ} : Type ℓ → Type ℓ
M A = Bridge → Outcome A

-- A `bool` result with a `std::string& message` that is set on failure.
pub data Try {ℓ} (A : Type ℓ) : Type ℓ where
  success : A → Try A
  failure : Text → Try A

unfoldable pub pure {ℓ} : {A : Type ℓ} → A → M A
pure a s = done a s

infixl 5 ◌>>=◌ ◌>>◌
unfoldable pub ◌>>=◌ {ℓ κ} : {A : Type ℓ} {B : Type κ} → M A → (A → M B) → M B
◌>>=◌ m f s = elim (m s) [ done a t ↦ f a t | crashed t ↦ crashed t | blocked t ↦ blocked t ]

unfoldable pub ◌>>◌ {κ} : {B : Type κ} → M (Unit {0}) → M B → M B
unfolding ◌>>=◌
m >> k = m >>= λ _. k

-- A read of globals, and a write.
unfoldable pub gets {ℓ} : {A : Type ℓ} → (Bridge → A) → M A
gets f s = done (f s) s

unfoldable pub modify : (Bridge → Bridge) → M (Unit {0})
modify f s = done tt (f s)

-- An effect on the environment, and its answer.
unfoldable pub emit : Event → M (Unit {0})
emit e s = done tt (record s { trace = e ∷ s.trace })

unfoldable pub ask {ℓ} : {A : Type ℓ} → (Trace → A) → (A → Event) → M A
ask f e s = let a = f s.trace in done a (record s { trace = e a ∷ s.trace })

unfoldable pub crash {ℓ} : {A : Type ℓ} → M A
crash s = crashed s

unfoldable pub block {ℓ} : {A : Type ℓ} → M A
block s = blocked s
