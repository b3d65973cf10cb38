-- ===== src/Behaviour/Files.antt =====
-- `DirName`, `WriteTextFile` and `MakeFdInheritable` against what they promise, and the file that
-- `TestXrayConfig` writes for the core.
use hey.Prelude.{
  ℕ, ◌≡◌, refl, ap, ◌∙◌, [], ◌∷◌, ◌++◌, true, false, Bool-cases, inl, inr, ◌==◌, leb, ltb, Bool,
  none, some, if◌then◌else◌, take, length, is_empty, arith, All, ◌≢◌,
}
use hey.Codec.Text.{Text, text, c_str, find_last_of}
use hey.Bridge.State
use hey.Bridge.State.{Env, Event, Trace, Bridge}
use hey.Bridge.Monad.{Try, success, failure, pure, gets, emit, ask, ◌>>=◌, ◌>>◌}
use hey.Bridge.Keeps.{Ensures, no_stop}
use hey.Bridge.Calls

-- A name has no slash in it.
abbrev pub NoSlash : Text → Type 0
NoSlash s = All (λ c. c ≢ b'/') s

find_last_of-none : (s : Text) → NoSlash s → find_last_of s b'/' ≡ none
unfolding find_last_of
find_last_of-none [] h = refl
find_last_of-none (c ∷ s) (k, h) = rw (find_last_of-none s h) (ground arith)

find_last_of-append :
    (dir base : Text) → NoSlash base → find_last_of (dir ++ (b'/' ∷ base)) b'/' ≡ some (length dir)
unfolding find_last_of
find_last_of-append [] base h = rw (find_last_of-none base h) refl
find_last_of-append (c ∷ dir) base h = rw (find_last_of-append dir base h) refl

take-length-append : (xs ys : Text) → take (length xs) (xs ++ ys) ≡ xs
take-length-append [] ys = refl
take-length-append (x ∷ xs) ys = ap (λ t. x ∷ t) (take-length-append xs ys)

-- The directory of a path is what stands before its last slash, whatever slashes stand in that; it is
-- "." where nothing does.
pub dir_name-append :
    (dir base : Text)
    → NoSlash base
    → Calls.dir_name (dir ++ (b'/' ∷ base)) ≡ (if is_empty dir then text "." else dir)
unfolding Calls.dir_name
dir_name-append [] base h = rw (find_last_of-append [] base h, Calls.dir_name) refl
dir_name-append (c ∷ dir) base h =
    rw (find_last_of-append (c ∷ dir) base h, Calls.dir_name)
      (ground (arith, take-length-append dir (b'/' ∷ base)))

-- What a write of a text file has done. On success, `fwrite` has taken the whole content and the file
-- was closed, whether or not the close wrote all of it out: the file holds the content only where the
-- close says so. On failure, the file could not be opened, or `fwrite` has taken less than the whole
-- content and the file was closed.
pub data Written (path content : Text) (before : Trace) : Try (Unit {0}) → Trace → Type 0 where
  taken :
      {x : Unit {0}} (flushed : Bool)
      → Written path content before (success x) (
          State.file_closed path flushed
          ∷ State.file_written path content
          ∷ State.file_opened path
          ∷ before)
  unopened :
      {message : Text}
      → Written path content before (failure message) (State.file_opened path ∷ before)
  partial :
      {message : Text} (n : ℕ) (flushed : Bool)
      → ltb n (length content) ≡ true
      → Written path content before (failure message) (
          State.file_closed path flushed
          ∷ State.file_written path (take n content)
          ∷ State.file_opened path
          ∷ before)

-- `fwrite` takes no more bytes than it is given.
abbrev pub Bounded : Env → Type 0
Bounded env =
    (t : Trace) (path content : Text) → leb (env.fwrite t path content) (length content) ≡ true

take-length : (s : Text) → take (length s) s ≡ s
take-length [] = refl
take-length (c ∷ s) = ap (λ t. c ∷ t) (take-length s)

take-all : (n : ℕ) (s : Text) → (n == length s) ≡ true → take n s ≡ s
take-all n s h = let same : n ≡ length s = ground arith in ap (λ m. take m s) same ∙ take-length s

less : (n m : ℕ) → leb n m ≡ true → (n == m) ≡ false → ltb n m ≡ true
less n m h k = ground arith

-- Where `fwrite` takes no more bytes than it is given, `WriteTextFile` returns, and has written as
-- `Written` says of its result.
pub write_text_file-Written :
    (env : Env) (path content : Text) (s : Bridge)
    → Bounded env
    → Ensures no_stop
        (λ r t. Written (c_str path) content s.trace r t.trace)
        (Calls.write_text_file env path content s)
unfolding Calls.write_text_file Calls.close_file Calls.errno_failure ask gets emit pure ◌>>=◌ ◌>>◌
write_text_file-Written env path content s bounded =
    let begun = State.file_opened (c_str path) ∷ s.trace in
    let n = env.fwrite begun (c_str path) content in
    elim (Bool-cases (env.fopen s.trace (c_str path)))
      as (λ x.
        Ensures no_stop (λ r t. Written (c_str path) content s.trace r t.trace)
          (Calls.write_text_file env path content s)) [
            | inr e ↦ rw e unopened
            | inl e ↦
                elim (Bool-cases (n == length content))
                  as (λ x.
                    Ensures no_stop (λ r t. Written (c_str path) content s.trace r t.trace)
                      (Calls.write_text_file env path content s)) [
                        | inr k ↦
                            rw (e, k)
                              (partial n _
                                (less n (length content) (bounded begun (c_str path) content) k))
                        | inl k ↦ rw (e, k) (rw (take-all n content k) (taken _))
                      ]
          ]
