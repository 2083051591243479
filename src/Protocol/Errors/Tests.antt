-- ===== src/Protocol/Errors/Tests.antt =====
-- Examples of error codes (protocol/errors/errors.go).
use on_code.Prelude.{◌≡◌, refl, true}
use on_code.Protocol.Errors.{Code, catalog, codes, known}
use mathlib.Core.List.{List, [], ◌∷◌}
use mathlib.Core.Bool.{Bool, ◌&&◌}

abbrev all_known : List Code → Bool
all_known [] = true
all_known (c ∷ cs) = known c && all_known cs

-- every listed code is in the catalog
codes_test : all_known codes ≡ true
unfolding codes known catalog
codes_test = refl
