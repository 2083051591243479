-- ===== src/Process.antt =====
-- local-agent/internal/process/runner.go: what is kept of a program's run, and how it is reported. The
-- start of a program, os/exec, is a parameter: it answers with a Finish.
pub mod Capture
mod Tests
use on_code.Prelude.{
  ℕ, ◌+◌, ◌-◌, ◌/◌, Bool, true, false, not, ◌||◌, Option, none, some, List, [], ◌∷◌, ◌++◌, Bytes,
  codes, ltb, leb, ◌==◌, if◌then◌else◌, is_empty, length, take, drop,
}
use on_code.Prelude.Decimal.{ℤ, pos, negsuc}

-- How a program ended: with success, with a code, or it was not run.
pub data Exit : Type 0 where
  succeeded not_run : Exit
  exited : ℤ → Exit

-- What is known behind `cmd.Run`: its end, the code that its state has, whether the deadline is exceeded or the
-- run was cancelled, its time, and what it wrote, piece by piece.
pub record Finish : Type 0 where
  pub exit : Exit
  pub state_code : Option ℤ
  pub deadline_exceeded : Bool
  pub cancelled : Bool
  pub ms : ℕ
  pub stdout_writes : List Bytes
  pub stderr_writes : List Bytes

pub record Result : Type 0 where
  pub exit_code : ℤ
  pub duration_ms : ℕ
  pub stdout : Bytes
  pub stderr : Bytes
  pub timed_out : Bool
  pub was_cancelled : Bool

-- `limitedBuffer.Write` on what the buffer holds; it reports the whole length as written
unfoldable pub write : ℕ → Bytes → Bytes → ℕ × Bytes
write max buffer p =
    let remain = max - length buffer in
    if remain == 0
    then (length p, buffer)
    else if ltb remain (length p)
    then (length p, buffer ++ take remain p)
    else (length p, buffer ++ p)

unfoldable pub captured : ℕ → Bytes → List Bytes → Bytes
captured max buffer [] = buffer
captured max buffer (p ∷ ps) = captured max (write max buffer p).1 ps

abbrev pub default_max : ℕ
default_max = 262144

-- a limit of the log, or 0 for one that is not positive
abbrev pub log_limit : ℕ → ℕ
log_limit n = if n == 0 then default_max else n

abbrev pub code_or : Option ℤ → ℤ
code_or none = negsuc 0
code_or (some c) = c

abbrev pub result_of : Finish → ℕ → ℤ → Bool → Bool → Result
result_of f max code late stopped = record {
  exit_code = code;
  duration_ms = f.ms;
  stdout = captured (log_limit max) [] f.stdout_writes;
  stderr = captured (log_limit max) [] f.stderr_writes;
  timed_out = late;
  was_cancelled = stopped;
}

abbrev pub ended : Finish → ℕ → Exit → Option Result
ended f max succeeded = some (result_of f max (pos 0) false false)
ended f max (exited c) = some (result_of f max c false false)
ended f max not_run = none

-- `Run` behind its tests of the options; `none` is an error
unfoldable pub run :
    (Bytes → List Bytes → Finish) → Bytes → List Bytes → Bytes → Bool → ℕ → Option Result
unfolding captured write
run start path args directory is_directory max =
    let f = start path args in
    if is_empty path || is_empty directory || not is_directory
    then none
    else if f.deadline_exceeded
    then some (result_of f max (code_or f.state_code) true false)
    else if f.cancelled
    then some (result_of f max (negsuc 0) false true)
    else ended f max f.exit

abbrev pub truncation : Bytes
truncation = codes "\n...[truncated]...\n"

abbrev pub summary_limit : ℕ → ℕ
summary_limit n = if n == 0 then 4000 else n

-- `Summary`, of a limit that is 0 where it is not positive
unfoldable pub summary : Bytes → ℕ → Bytes
summary s n =
    let max = summary_limit n in
    let half = max / 2 in
    if leb (length s) max then s else take half s ++ (truncation ++ drop (length s - half) s)
