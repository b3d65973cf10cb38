-- ===== src/Bridge/Calls.antt =====
-- The helpers of entry/src/main/cpp/napi_init.cpp around system calls, N-API values and results.
use hey.Prelude.{ℕ, ◌*◌, ◌/◌, List, [], ◌++◌, Bool, not, Option, none, some}
use hey.Prelude.{◌==◌, if◌then◌else◌, take, length, get_or, ℤ, pos, negsuc, ltb_ℤ}
use hey.Codec.Text.{Text, text, c_str, find_last_of}
use hey.Bridge.State.{Env, Event, Level, Allocator, Arguments}
use hey.Bridge.Monad.{M, Try, success, failure, pure, ◌>>=◌, ◌>>◌, gets, modify, emit, ask, crash}

pub record NapiResult : Type 0 where
  pub ok : Bool
  pub message : Text

unfoldable pub log : Level → Text → M (Unit {0})
log level message = emit (Event.logged level (c_str message))

unfoldable pub create_result : Bool → Text → M NapiResult
create_result ok message = do
  modify (λ s. record s { last_message = message })
  log (if ok then Level.info else Level.error) message
  pure (record { ok = ok; message = message })

unfoldable pub create_result_quiet : Bool → Text → M NapiResult
create_result_quiet ok message = pure (record { ok = ok; message = message })

unfoldable pub dir_name : Text → Text
dir_name path = elim (find_last_of path b'/') [
  | none ↦ text "."
  | some slash ↦ if slash == 0 then text "." else take slash path
]

module _ (env : Env) where
  unfoldable pub native_lib_dir : Text
  unfolding dir_name
  native_lib_dir = elim env.dli_fname [ none ↦ text "." | some path ↦ dir_name path ]

  unfoldable pub exec_path : Text → Text
  exec_path name = native_lib_dir ++ (text "/" ++ name)

  -- `message = ErrnoMessage(prefix); return false;`
  unfoldable pub errno_failure {ℓ} : {A : Type ℓ} → Text → M (Try A)
  errno_failure prefix =
      gets (λ s. failure (prefix ++ (text ": " ++ env.strerror (env.errno s.trace))))

  -- `std::fclose(file)`, whose result is ignored.
  unfoldable pub close_file : Text → M (Unit {0})
  close_file path = do
    _ ← ask (λ t. env.fclose t (c_str path)) (λ flushed. Event.file_closed (c_str path) flushed)
    pure tt

  unfoldable pub write_text_file : Text → Text → M (Try (Unit {0}))
  write_text_file path content = do
    opened ← ask (λ t. env.fopen t (c_str path)) (λ _. Event.file_opened (c_str path))
    if not opened then errno_failure (text "Failed to open file for writing: " ++ path) else do
      written ←
          ask (λ t. env.fwrite t (c_str path) content)
            (λ n. Event.file_written (c_str path) (take n content))
      close_file path
      if not (written == length content)
          then errno_failure (text "Failed to write complete file: " ++ path)
          else pure (success tt)

  -- The rest of `MakeFdInheritable`; `flags & ~FD_CLOEXEC` clears bit 0.
  unfoldable pub set_inheritable : ℤ → ℤ → M (Try (Unit {0}))
  set_inheritable fd (negsuc n) = errno_failure (text "fcntl(F_GETFD) failed for TUN fd")
  set_inheritable fd (pos flags) = do
    let kept = flags / 2 * 2
    set ← ask (λ t. env.set_fd_flags t fd kept) (λ _. Event.fd_flags_set fd kept)
    if ltb_ℤ set (pos 0)
        then errno_failure (text "fcntl(F_SETFD) failed for TUN fd")
        else pure (success tt)

  unfoldable pub make_fd_inheritable : ℤ → M (Try (Unit {0}))
  make_fd_inheritable fd = do
    flags ← ask (λ t. env.get_fd_flags t fd) (λ _. Event.fd_flags_read fd)
    set_inheritable fd flags

  -- A value that is no string leaves the length at 0.
  unfoldable pub get_string_arg : ℕ → Text
  get_string_arg value = elim (env.string_utf8 value) [ none ↦ [] | some s ↦ s ]

  -- A value that is no number leaves the result at 0.
  unfoldable pub get_int_arg : ℕ → ℤ
  get_int_arg value = elim (env.value_int32 value) [ none ↦ pos 0 | some n ↦ n ]

  -- `handle = dlopen(…)`, `dlsym(handle, name)`, and `dlerror()` where it clears the last error.
  unfoldable pub dlopen : Text → M (Option ℕ)
  dlopen path = ask (λ t. env.dlopen t (c_str path)) (λ h. Event.dlopened (c_str path) h)

  unfoldable pub dlsym : ℕ → Text → M (Option ℕ)
  dlsym handle name = ask (λ t. env.dlsym t handle name) (λ _. Event.dlsym_read handle name)

  unfoldable pub dlerror : M Text
  dlerror =
      ask (λ t. elim (env.dlerror t) [ none ↦ text "unknown error" | some e ↦ e ])
        (λ _. Event.dlerror_read)

  -- The library beside the bridge, or else by its bare name.
  unfoldable pub open_library : Text → M (Option ℕ)
  open_library name = do
    handle ← dlopen (exec_path name)
    elim handle [ none ↦ dlopen name | some h ↦ pure (some h) ]

  -- A call of a `char*` function: a null pointer crashes, and a returned string is to be freed.
  unfoldable pub call_string : Allocator → Option ℕ → Arguments → M (Option Text)
  call_string a none _ = crash
  call_string a (some f) args = do
    raw ← ask (λ t. env.answer t f args) (λ _. Event.called f args)
    elim raw [
      | none ↦ pure none
      | some response ↦ do emit (Event.returned a response); pure (some response)
    ]

-- `std::free(raw)` behind the copy of the string, and `g_cgoFree(raw)` through its pointer.
unfoldable pub std_free : Text → M (Unit {0})
std_free response = emit (Event.freed Allocator.malloc response)

unfoldable pub cgo_free : Option ℕ → Text → M (Unit {0})
cgo_free none response = crash
cgo_free (some f) response = emit (Event.freed Allocator.cgo response)

-- A call of a `void` function.
unfoldable pub call_void : Option ℕ → Arguments → M (Unit {0})
call_void none _ = crash
call_void (some f) args = emit (Event.called f args)

-- `args[i]`, null behind the arguments given.
abbrev pub arg : List ℕ → ℕ → ℕ
arg args i = get_or args i 0
