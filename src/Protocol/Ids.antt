-- ===== src/Protocol/Ids.antt =====
-- protocol/ids/ids.go: typed identifiers, a kind before a UUID of version 7.
pub mod Hex
pub mod Kinds
pub mod Uuids
pub mod Stamp
pub mod Texts
pub mod RoundTrip
pub mod Accepted
mod Tests
use on_code.Prelude.{
  ℕ, zero, suc, ◌+◌, Bool, true, false, ◌||◌, Option, none, some, List, [], ◌∷◌, ◌++◌, Bytes, codes,
  Result, ok, err, ◌>>=◌, ◌>>◌, ensure, ◌==◌, if◌then◌else◌, bytes_eq, index_byte, length, take,
  drop,
}
use on_code.Prelude.Space.{trim_space}
use Kinds
use Kinds.{Kind}
use Uuids.{Uuid, format_uuid, parse_uuid, version, variant}

-- Why an identifier is refused; the texts of the source's errors are not modelled.
pub data IdError : Type 0 where
  invalid_id unknown_kind invalid_uuid wrong_version wrong_variant wrong_kind : IdError

-- `Prefixes`, and the keys of the map `kinds`.
abbrev pub prefixes : List Kind
prefixes =
    Kinds.message ∷ Kinds.call ∷ Kinds.session ∷ Kinds.project ∷ Kinds.workspace ∷ Kinds.work_item
    ∷ Kinds.workflow ∷ Kinds.approval ∷ Kinds.change_set ∷ Kinds.task ∷ Kinds.execution ∷ []

unfoldable pub among : Kind → List Kind → Bool
among k [] = false
among k (p ∷ ps) = bytes_eq k p || among k ps

unfoldable pub known : Kind → Bool
unfolding among
known k = among k prefixes

-- `New`, from the UUID that `NewV7` made.
unfoldable pub new : Kind → Uuid → Result IdError Bytes
new kind u = if known kind then ok (kind ++ b'-' ∷ format_uuid u) else err unknown_kind

-- the text before the dash and the text behind it; neither may be empty
abbrev parts_at : Option ℕ → Bytes → Result IdError (Kind × Bytes)
parts_at none s = err invalid_id
parts_at (some i) s =
    if (i == 0) || (suc i == length s) then err invalid_id else ok (take i s, drop (suc i) s)

unfoldable pub split : Bytes → Result IdError (Kind × Bytes)
split id = let s = trim_space id in parts_at (index_byte b'-' s) s

abbrev checked_uuid : Option Uuid → Result IdError Uuid
checked_uuid none = err invalid_uuid
checked_uuid (some raw) = ok raw

unfoldable pub parse : Bytes → Result IdError (Kind × Uuid)
parse id = do
  parts ← split id
  ensure (known parts.0) unknown_kind
  raw ← checked_uuid (parse_uuid parts.1)
  ensure (version raw == 7) wrong_version
  ensure (variant raw == 2) wrong_variant
  ok (parts.0, raw)

unfoldable pub validate : Kind → Bytes → Result IdError (Unit {0})
validate kind id = do got ← parse id; ensure (bytes_eq got.0 kind) wrong_kind
