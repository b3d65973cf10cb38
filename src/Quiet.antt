-- ===== src/Quiet.antt =====
-- The calls that answer a question, and what they leave alone.
use hey.Prelude.{ℕ, ◌≡◌, refl, List, Bool, true, ℤ}
use hey.Codec.Text.{Text}
use hey.Bridge.State.{Env, Bridge}
use hey.Bridge.Keeps.{Ensures, Allowed, no_stop}
use hey.Module
use hey.Module.{Method}
use hey.Health.Invariant.{any, Healthy}
use hey.Health.Calls.{Needs, handle-Keeps}
use hey.Behaviour.Answers.{both}
use hey.Frame.{Frame}
use hey.Frame.Queries.{is_query, Keeps-query}

-- What `getStats` reports, and the engine that it reads from.
pub record Runtime : Type 0 where
  pub xray_running : Bool
  pub singbox_running : Bool
  pub tun_running : Bool
  pub upload_bytes : ℤ
  pub download_bytes : ℤ
  pub last_message : Text
  pub tun_engine : ℕ
  pub thread : Bool

abbrev pub runtime : Bridge → Runtime
runtime s = record {
  xray_running = s.xray_running;
  singbox_running = s.singbox_running;
  tun_running = s.tun_running;
  upload_bytes = s.upload_bytes;
  download_bytes = s.download_bytes;
  last_message = s.last_message;
  tun_engine = s.tun_engine;
  thread = s.hev.thread;
}

runtime-IsFrame : (r : Runtime) → Frame (λ s. runtime s ≡ r)
runtime-IsFrame r = record {
  of_event = λ e s v h. h;
  of_env_set = λ value s h. h;
  of_xray = λ x s h. h;
  of_singbox = λ x s h. h;
  of_tun2socks = λ x s h. h;
  of_hev = λ x s e h. rw e h;
}

query-Needs : (env : Env) (C : Allowed) (m : Method) → is_query m ≡ true → Needs env C m
query-Needs env C Module.set_tun_fd_method h = cc
query-Needs env C Module.start_hev_tun_method h = cc
query-Needs env C Module.stop_tun2socks_method h = cc
query-Needs env C _ h = tt

-- From a state of `Healthy any`, the calls that only answer a question (the auxiliary queries, the
-- probe and the version of sing-box, and pings) return, in a state of
-- `Healthy any` in which what `getStats` reports, the engine in use and the hev thread are as they were.
pub handle-runtime :
    (env : Env) (m : Method) (args : List ℕ) (s : Bridge)
    → is_query m ≡ true
    → Healthy any s
    → Ensures no_stop (λ _ t. Healthy any t × (runtime t ≡ runtime s)) (Module.handle env m args s)
handle-runtime env m args s q h =
    both no_stop (Healthy any) (λ _ t. runtime t ≡ runtime s) (Module.handle env m args s)
      ((handle-Keeps env {C = no_stop} m args (query-Needs env no_stop m q)).keeps s h)
      ((Keeps-query (runtime-IsFrame (runtime s)) env m args q).keeps s refl)
