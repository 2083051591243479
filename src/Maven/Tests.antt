-- ===== src/Maven/Tests.antt =====
-- Examples of test runs (local-agent/internal/maven/maven.go).
use on_code.Prelude.{◌≡◌, refl, false, [], Bytes, codes, arith, has_prefix}
use on_code.Prelude.Decimal.{pos, unsigned}
use on_code.Process
use on_code.Process.{summary}
use on_code.Maven.{failed, parse_surefire, test_result}
use on_code.Maven.Verdict.{IsFair, test_result-IsFair}

abbrev run_with : Bytes → Process.Result
run_with log = record {
  exit_code = pos 0;
  duration_ms = 5;
  stdout = log;
  stderr = [];
  timed_out = false;
  was_cancelled = false;
}

abbrev log : Bytes
log =
    codes
      "x\nTests run: 3, Failures: 1, Errors: 0, Skipped: 1\nTests run: 12, Failures: 5, Errors: 0, Skipped: 0"

test_result-IsFair_example : IsFair (run_with log) (test_result (run_with log))
unfolding parse_surefire has_prefix unsigned
test_result-IsFair_example = test_result-IsFair (run_with log) (omega arith)

-- The first line with counts is read, which is that of the first class; the totals stand in the last one.
parse_surefire_test :
    (parse_surefire log ≡ record { total = 3; failures = 1; errors = 0; skipped = 1 })
    × ((test_result (run_with log)).status ≡ failed)
unfolding parse_surefire test_result has_prefix unsigned
parse_surefire_test = (refl, refl)
