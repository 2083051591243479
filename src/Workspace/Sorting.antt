-- ===== src/Workspace/Sorting.antt =====
-- `sort.SliceStable` and `sort.Strings` on paths (package sort), as local-agent/internal/workspace/ and
-- local-agent/internal/actualdiff/ use them: an insertion sort that is stable.
use on_code.Prelude.{Bool, true, false, List, [], ◌∷◌, Bytes, ltb, ◌==◌, if◌then◌else◌}

-- `a < b` of two strings
unfoldable pub bytes_lt : Bytes → Bytes → Bool
bytes_lt [] [] = false
bytes_lt [] (y ∷ ys) = true
bytes_lt (x ∷ xs) [] = false
bytes_lt (x ∷ xs) (y ∷ ys) = let rest = bytes_lt xs ys in if x == y then rest else ltb x y

module _ {A : Type 0} (key : A → Bytes) where
  -- before the first one that is not smaller
  unfoldable pub insert_sorted : A → List A → List A
  insert_sorted x [] = x ∷ []
  insert_sorted x (y ∷ ys) =
      let rest = insert_sorted x ys in if bytes_lt (key y) (key x) then y ∷ rest else x ∷ y ∷ ys

  unfoldable pub sort_by : List A → List A
  unfolding insert_sorted bytes_lt
  sort_by [] = []
  sort_by (x ∷ xs) = insert_sorted x (sort_by xs)
