-- ===== src/Maven/Verdict.antt =====
-- When a test run counts as a success (local-agent/internal/maven/maven.go).
use on_code.Prelude.{ℕ, ◌+◌, ◌-◌, ◌%◌, ◌^◌, ◌<◌, ◌≡◌, ◌↔◌, refl, true, false, ◌++◌, ◌∷◌, arith}
use on_code.Prelude.Decimal.{ℤ, pos, negsuc}
use on_code.Process
use on_code.Maven.{
  Counts, Status, success, failed, timeout, cancelled, parse_surefire, is_zero, status_of,
  is_positive, passed_of, verdict, TestResult, test_result,
}

-- a run that ended by itself, with the code 0
pub record IsGood (r : Process.Result) : Type 0 where
  pub in_time : r.timed_out ≡ false
  pub uncancelled : r.was_cancelled ≡ false
  pub code : r.exit_code ≡ pos 0

is_zero_sound : (c : ℤ) → is_zero c ≡ true → c ≡ pos 0
is_zero_sound (pos n) e = ground (arith, e)
is_zero_sound (negsuc n) e = cc e

status_of-IsGood : (r : Process.Result) → status_of r ≡ success → IsGood r
unfolding status_of
status_of-IsGood r e = record {
  in_time = ground (arith, e);
  uncancelled = ground (arith, e);
  code = is_zero_sound r.exit_code (ground (arith, e));
}

verdict_sound :
    (s : Status) (n : ℕ) → verdict s n ≡ success → (s ≡ success) × (is_positive n ≡ false)
verdict_sound success n e = (refl, ground (arith, e))
verdict_sound failed n e = ground (arith, e)
verdict_sound timeout n e = ground (arith, e)
verdict_sound cancelled n e = ground (arith, e)

passed_of_lem :
    (c : Counts)
    → c.total + c.failures + c.errors + c.skipped < 2 ^ 63
    → passed_of c ≡ c.total - c.failures - c.errors - c.skipped
passed_of_lem c small = ground (arith, small)

-- the counts of a run, from both of its logs
abbrev pub counts_of : Process.Result → Counts
counts_of r = parse_surefire (r.stdout ++ b'\n' ∷ r.stderr)

-- What a result says of a run.
pub record IsFair (r : Process.Result) (t : TestResult) : Type 0 where
  pub verdict :
      (t.status ≡ success) ↔ (IsGood r × ((counts_of r).failures + (counts_of r).errors ≡ 0))
  pub failed : t.failed_tests ≡ (counts_of r).failures + (counts_of r).errors
  pub passed :
      t.passed
      ≡ (counts_of r).total - (counts_of r).failures - (counts_of r).errors - (counts_of r).skipped

IsGood-status_of : (r : Process.Result) → IsGood r → status_of r ≡ success
unfolding status_of
IsGood-status_of r g = rw (g.in_time, g.uncancelled, g.code) refl

verdict_good : (s : Status) (n : ℕ) → s ≡ success → n ≡ 0 → verdict s n ≡ success
verdict_good s n e z = rw (e, z) refl

-- A test run counts as a success just where Maven ended in time, by itself and with the code 0, and no failure or
-- error is counted; what is reported as passed is the rest of the total, or 0 where there is none. The
-- counts of the log are below 2^63 together.
pub test_result-IsFair :
    (r : Process.Result)
    → (counts_of r).total + (counts_of r).failures + (counts_of r).errors + (counts_of r).skipped
      < 2 ^ 63
    → IsFair r (test_result r)
unfolding test_result
test_result-IsFair r small =
    let c = counts_of r in
    let bad : (c.failures + c.errors) % 2 ^ 64 ≡ c.failures + c.errors = omega (arith, small) in
    record {
      verdict = (
        (λ e.
            let (ended, none_bad) =
              verdict_sound (status_of r) ((c.failures + c.errors) % 2 ^ 64) e in
            (status_of-IsGood r ended, ground (arith, none_bad, bad, small))),
        (λ g.
            verdict_good (status_of r) ((c.failures + c.errors) % 2 ^ 64) (IsGood-status_of r g.0)
              (omega (arith, bad, g.1))),
      );
      failed = bad;
      passed = passed_of_lem c small;
    }
