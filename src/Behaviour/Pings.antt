-- ===== src/Behaviour/Pings.antt =====
-- What `pingOutbound` reports: a delay within the range of real delays, or -1.
use hey.Bridge.Keeps.{no_stop}
use hey.Prelude.{
  ℕ, List, ◌≡◌, refl, Bool, true, false, not, ◌||◌, arith, ℤ, pos, negsuc, ltb_ℤ, ◌≤ℤ◌,
  if◌then◌else◌,
}
use hey.Codec.Text.{Text, text}
use hey.Codec.Response
use hey.Bridge.State.{Env, Bridge}
use hey.Bridge.Monad.{M, pure, emit, ◌>>=◌, ◌>>◌}
use hey.Bridge.Calls
use hey.Bridge.Keeps.{Ensures}
use hey.Ping
use hey.Ping.{PingResult}
use hey.Health.Invariant.{any, Healthy}
use hey.Health.TunHandlers
use hey.Behaviour.Answers.{Always, Always->>=, Always->>, Always-if, Always-try, Always-Healthy}

-- A delay from 0 to 9999 milliseconds on success, and -1 on failure.
abbrev pub Measured : PingResult → Bridge → Type 0
Measured r s =
    (r.ok ≡ true → (pos 0 ≤ℤ r.delay_ms) × (r.delay_ms ≤ℤ pos 9999))
    × (r.ok ≡ false → r.delay_ms ≡ negsuc 0)

Always-ping_failed : (message : Text) → Always Measured (Ping.ping_failed message)
unfolding Ping.ping_failed Ping.create_ping_result Calls.log emit pure ◌>>=◌ ◌>>◌
Always-ping_failed message = record { run = λ s. ((λ e. cc), λ e. refl) }

Always-ping_ok :
    (delay : ℤ) (message : Text)
    → (ltb_ℤ delay (pos 0) || not (ltb_ℤ delay (pos 10000))) ≡ false
    → Always Measured (Ping.create_ping_result true delay message)
unfolding Ping.create_ping_result Calls.log emit pure ◌>>=◌ ◌>>◌
Always-ping_ok delay message h = record {
  run = λ s. ((λ e. (ground arith, ground arith)), λ e. cc);
}

checked :
    (delay : ℤ) (b : Bool) {m : M PingResult} (message : Text)
    → (ltb_ℤ delay (pos 0) || not (ltb_ℤ delay (pos 10000))) ≡ b
    → Always Measured m
    → Always Measured (if b then m else Ping.create_ping_result true delay message)
checked delay true message e h = h
checked delay false message e h = Always-ping_ok delay message e

Always-judge_ping : (response : Text) → Always Measured (Ping.judge_ping response)
unfolding Ping.judge_ping
Always-judge_ping response =
    Always-if (not (Response.invoke_success response (text "")).0)
      (Always-ping_failed (Response.invoke_success response (text "")).1)
      (checked (Response.extract_delay response) _ _ refl (Always-ping_failed _))

module _ (env : Env) where
  Always-run_ping :
      (config dat_dir url : Text) (timeout : ℕ) (proxy : Text)
      → Always Measured (Ping.run_ping env config dat_dir url timeout proxy)
  unfolding Ping.run_ping
  Always-run_ping config dat_dir url timeout proxy = Always->> _ _ (
      Always->>= _ _ λ w.
        Always-try w Always-ping_failed
          λ _. Always->>= _ _ λ r. Always-try r Always-ping_failed Always-judge_ping)

  Always-ping_outbound : (args : List ℕ) → Always Measured (Ping.ping_outbound env args)
  unfolding Ping.ping_outbound
  Always-ping_outbound args = search (Always-if, Always-ping_failed, Always-run_ping) depth 20

  -- From a state of `Healthy any`, `pingOutbound` returns, in a state of `Healthy any`:
  -- it reports a delay from 0 to 9999 on success and -1 on failure.
  pub ping_outbound-outcome :
      (args : List ℕ) (s : Bridge)
      → Healthy any s
      → Ensures no_stop (λ r t. Healthy any t × Measured r t) (Ping.ping_outbound env args s)
  ping_outbound-outcome args =
      Always-Healthy no_stop (TunHandlers.Keeps-ping_outbound env args) (Always-ping_outbound args)
