-- ===== src/Maven.antt =====
-- local-agent/internal/maven/maven.go, with the results of build/adapter.go and testrun/adapter.go: what a
-- run of Maven says. The run itself is a parameter.
pub mod Verdict
mod Tests
use on_code.Prelude.{
  ℕ, suc, ◌+◌, ◌-◌, ◌%◌, ◌^◌, Bool, true, false, not, ◌&&◌, ◌||◌, Option, none, some, List, [], ◌∷◌,
  ◌++◌, Bytes, codes, Result, ok, err, ◌>>=◌, ◌>>◌, ensure, ltb, leb, ◌==◌, if◌then◌else◌, is_empty,
  has_prefix, length, drop,
}
use on_code.Prelude.Decimal.{ℤ, pos, negsuc, is_digit, unsigned}
use on_code.Process
use on_code.Process.{summary}

-- what `surefireRe` finds
pub record Counts : Type 0 where
  pub total : ℕ
  pub failures : ℕ
  pub errors : ℕ
  pub skipped : ℕ

pub data Status : Type 0 where
  success failed timeout cancelled : Status

-- `\s` of package regexp
abbrev pub is_blank : ℕ → Bool
is_blank c = (c == 9) || (c == 10) || (c == 12) || (c == 13) || (c == 32)

unfoldable pub skip_blanks : Bytes → Bytes
skip_blanks [] = []
skip_blanks (c ∷ s) = let rest = skip_blanks s in if is_blank c then rest else c ∷ s

-- the digits in front, and the rest
unfoldable pub span_digits : Bytes → Bytes × Bytes
span_digits [] = ([], [])
span_digits (c ∷ s) =
    let (ds, rest) = span_digits s in if is_digit c then (c ∷ ds, rest) else ([], c ∷ s)

-- a part of the expression, which fails without a reason
abbrev pub Part : Type 0 → Type 0
Part A = Result (Unit {0}) A

abbrev pub literal : Bytes → Bytes → Part Bytes
literal p s = if has_prefix s p then ok (drop (length p) s) else err tt

abbrev pub max_int : ℕ
max_int = 9223372036854775807

abbrev pub value_of : Option ℕ → ℕ
value_of none = 0
value_of (some n) = if ltb max_int n then max_int else n

-- `strconv.Atoi` without its error: a number that is too large reads as the largest one
abbrev pub count : Bytes → ℕ
count ds = value_of (unsigned ds)

-- a label, blanks and digits
unfoldable pub number_after : Bytes → Bytes → Part (ℕ × Bytes)
unfolding skip_blanks span_digits
number_after label s = do
  rest ← literal label s
  let (ds, behind) = span_digits (skip_blanks rest)
  ensure (not (is_empty ds)) tt
  ok (count ds, behind)

unfoldable pub counts_at : Bytes → Part Counts
unfolding number_after
counts_at s = do
  total ← number_after (codes "Tests run:") s
  s1 ← literal (codes ",") total.1
  failures ← number_after (codes "Failures:") (skip_blanks s1)
  s2 ← literal (codes ",") failures.1
  errors ← number_after (codes "Errors:") (skip_blanks s2)
  s3 ← literal (codes ",") errors.1
  skipped ← number_after (codes "Skipped:") (skip_blanks s3)
  ok (record { total = total.0; failures = failures.0; errors = errors.0; skipped = skipped.0 })

abbrev pub or_later : Part Counts → Option Counts → Option Counts
or_later (ok c) later = some c
or_later (err e) later = later

-- the first place where the expression fits
unfoldable pub find_counts : Bytes → Option Counts
unfolding counts_at
find_counts [] = none
find_counts (c ∷ s) = or_later (counts_at (c ∷ s)) (find_counts s)

abbrev pub or_zero : Option Counts → Counts
or_zero none = record { total = 0; failures = 0; errors = 0; skipped = 0 }
or_zero (some c) = c

-- `parseSurefire`
unfoldable pub parse_surefire : Bytes → Counts
unfolding find_counts
parse_surefire log = or_zero (find_counts log)

abbrev pub is_zero : ℤ → Bool
is_zero (pos n) = n == 0
is_zero (negsuc n) = false

-- `statusOf`
unfoldable pub status_of : Process.Result → Status
status_of r =
    if r.timed_out
    then timeout
    else if r.was_cancelled
    then cancelled
    else if is_zero r.exit_code
    then success
    else failed

-- an int of 64 bits holds n modulo 2^64; it is positive below 2^63
abbrev pub is_positive : ℕ → Bool
is_positive n = ltb 0 n && ltb n (2 ^ 63)

-- `total - failed - errors - skipped`, or 0 where that is negative
abbrev pub passed_of : Counts → ℕ
passed_of c =
    let left =
      (c.total + (2 ^ 64 - c.failures) + (2 ^ 64 - c.errors) + (2 ^ 64 - c.skipped)) % 2 ^ 64 in
    if leb (2 ^ 63) left then 0 else left

-- testrun.Result, without the time, the tool and its command
pub record TestResult : Type 0 where
  pub status : Status
  pub exit_code : ℤ
  pub total : ℕ
  pub passed : ℕ
  pub failed_tests : ℕ
  pub skipped : ℕ
  pub stdout_summary : Bytes
  pub stderr_summary : Bytes

abbrev pub is_success : Status → Bool
is_success success = true
is_success _ = false

abbrev pub verdict : Status → ℕ → Status
verdict s n = if is_positive n && is_success s then failed else s

-- `TestAdapter.Run` behind the run of Maven
unfoldable pub test_result : Process.Result → TestResult
unfolding parse_surefire status_of
test_result r =
    let c = parse_surefire (r.stdout ++ b'\n' ∷ r.stderr) in
    let bad = (c.failures + c.errors) % 2 ^ 64 in
    record {
      status = verdict (status_of r) bad;
      exit_code = r.exit_code;
      total = c.total;
      passed = passed_of c;
      failed_tests = bad;
      skipped = c.skipped;
      stdout_summary = summary r.stdout 4000;
      stderr_summary = summary r.stderr 4000;
    }

-- build.Result, without the time, the tool and its command
pub record BuildResult : Type 0 where
  pub build_status : Status
  pub build_code : ℤ
  pub diagnostics : List Bytes
  pub build_stdout : Bytes
  pub build_stderr : Bytes

abbrev pub diagnostics_of : Status → List Bytes
diagnostics_of failed = codes "maven compile failed" ∷ []
diagnostics_of _ = []

-- `BuildAdapter.Run` behind the run of Maven
unfoldable pub build_result : Process.Result → BuildResult
unfolding status_of
build_result r = record {
  build_status = status_of r;
  build_code = r.exit_code;
  diagnostics = diagnostics_of (status_of r);
  build_stdout = summary r.stdout 4000;
  build_stderr = summary r.stderr 4000;
}
