-- ===== src/Git/Tests.antt =====
-- Examples of the status of git (local-agent/internal/gitops/git.go).
use on_code.Prelude.{
  ◌≡◌, refl, true, false, some, List, [], ◌∷◌, codes, err, arith, split, bytes_eq, has_prefix,
}
use on_code.Prelude.Space.{trim_space}
use on_code.Git.{behind_arrow, parse_porcelain, status}
use on_code.Git.Porcelain.{Entry, print, expected, parse_porcelain-print}
use on_code.Prelude.Decimal.{pos}
use on_code.Protocol.Errors.{git_not_available}
use on_code.Workspace.Conflicts.{listed}

abbrev entries : List Entry
entries =
    record { index = b'M'; tree = b'M'; path = codes "a b" }
    ∷ record { index = b'?'; tree = b'?'; path = codes "n" }
    ∷ []

parse_porcelain-print_example : parse_porcelain (print entries) ≡ expected entries
unfolding trim_space behind_arrow has_prefix
parse_porcelain-print_example = parse_porcelain-print entries (
  record {
    index_stays = λ e. omega (arith, e);
    tree_stays = λ e. omega (arith, e);
    one_line = ((λ e. omega (arith, e)), ((λ e. omega (arith, e)), ((λ e. omega (arith, e)), tt)));
    trimmed = refl;
    no_arrow = refl;
  },
  (
    record {
      index_stays = λ e. omega (arith, e);
      tree_stays = λ e. omega (arith, e);
      one_line = ((λ e. omega (arith, e)), tt);
      trimmed = refl;
      no_arrow = refl;
    },
    tt,
  ),
)

-- a renamed file stands under its new name, and a path that git quotes keeps its quotes
parse_porcelain_test :
    parse_porcelain (codes "R  old -> new\n D \"a\\tb\"\n")
    ≡ record { changed = codes "\"a\\tb\"" ∷ []; staged = codes "new" ∷ []; untracked = [] }
unfolding parse_porcelain split trim_space has_prefix bytes_eq listed
parse_porcelain_test = refl

-- Without a commit there is no HEAD: the first call of git fails, and with it the status.
status_test :
    status
      (λ args. some (record {
        exit_code = pos 128;
        duration_ms = 1;
        stdout = [];
        stderr = [];
        timed_out = false;
        was_cancelled = false;
      }))
      true
    ≡ err git_not_available
unfolding status
status_test = refl
