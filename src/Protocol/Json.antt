-- ===== src/Protocol/Json.antt =====
-- The values of package encoding/json as the source uses them: `any` and `map[string]any`.
use on_code.Prelude.{
  ℕ, ◌≡◌, refl, Bool, Option, none, some, [], Bytes, String, arith, if◌then◌else◌,
}
use text.Mathlib.Text.{◌==◌ as str_eq}
use text.Mathlib.TextEquality.{eq_iff}

mutual
  pub data Value : Type 0 where
    null : Value
    boolean : Bool → Value
    number : ℕ → Value
    str : Bytes → Value
    array : Items → Value
    object : Fields → Value

  pub data Items : Type 0 where
    nil : Items
    item : Value → Items → Items

  pub data Fields : Type 0 where
    end : Fields
    field : String → Value → Fields → Fields

unfoldable pub lookup : String → Fields → Option Value
lookup k end = none
lookup k (field j v m) = if str_eq j k then some v else lookup k m

-- `m[k] = v`
unfoldable pub insert : String → Value → Fields → Fields
insert k v end = field k v end
insert k v (field j w m) = if str_eq j k then field k v m else field j w (insert k v m)

-- `delete(m, k)`
unfoldable pub remove : String → Fields → Fields
remove k end = end
remove k (field j w m) = let rest = remove k m in if str_eq j k then rest else field j w rest

-- `s, _ := v.(string)`
abbrev pub text_of : Option Value → Bytes
text_of (some (str s)) = s
text_of _ = []

-- `text(m[k])`
abbrev pub text_at : String → Fields → Bytes
text_at k m = text_of (lookup k m)

-- `m[k]` as a value of a map that is written next; a missing key reads as null.
abbrev pub value_of : Option Value → Value
value_of none = null
value_of (some v) = v

pub lookup-insert :
    (k j : String) (v : Value) (m : Fields)
    → lookup j (insert k v m) ≡ (if str_eq k j then some v else lookup j m)
unfolding lookup insert
lookup-insert k j v end = refl
lookup-insert k j v (field i w m) =
    ground (arith, eq_iff k j, eq_iff i k, eq_iff i j, lookup-insert k j v m)

pub lookup-remove :
    (k j : String) (m : Fields) → lookup j (remove k m) ≡ (if str_eq k j then none else lookup j m)
unfolding lookup remove
lookup-remove k j end = ground arith
lookup-remove k j (field i w m) =
    ground (arith, eq_iff k j, eq_iff i k, eq_iff i j, lookup-remove k j m)
