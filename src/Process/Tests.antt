-- ===== src/Process/Tests.antt =====
-- Examples of logs (local-agent/internal/process/runner.go).
use on_code.Prelude.{◌≤◌, ◌≡◌, refl, true, false, none, some, List, [], ◌∷◌, Bytes, codes, length}
use on_code.Prelude.Decimal.{pos, negsuc}
use on_code.Process.{Finish, exited, write, captured, run, summary}
use on_code.Process.Capture.{captured-eq-take}

abbrev pieces : List Bytes
pieces = codes "abc" ∷ codes "de" ∷ codes "f" ∷ []

captured-eq-take_example :
    (captured 4 [] pieces ≡ codes "abcd")
    × (length (captured 4 [] pieces) ≤ 4)
    × ((p : Bytes) → (write 4 (codes "abcd") p).0 ≡ length p)
captured-eq-take_example = captured-eq-take 4 (codes "abcd") pieces

abbrev finish : Finish
finish = record {
  exit = exited (pos 1);
  state_code = none;
  deadline_exceeded = false;
  cancelled = true;
  ms = 7;
  stdout_writes = pieces;
  stderr_writes = [];
}

-- A cancelled run has the code -1, whatever the program's is; a summary can be longer than what it is made of.
run_test :
    (run (λ path args. finish) (codes "git") [] (codes "/w") true 4
      ≡ some (record {
        exit_code = negsuc 0;
        duration_ms = 7;
        stdout = codes "abcd";
        stderr = [];
        timed_out = false;
        was_cancelled = true;
      }))
    × (run (λ path args. finish) [] [] (codes "/w") true 4 ≡ none)
    × (summary (codes "abcdef") 5 ≡ codes "ab\n...[truncated]...\nef")
unfolding run summary
run_test = (refl, refl, refl)
