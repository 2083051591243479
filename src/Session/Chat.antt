-- ===== src/Session/Chat.antt =====
-- local-agent/internal/chatctx/validate.go: a chat message must not carry source text.
use on_code.Prelude.{
  ℕ, ◌+◌, ◌≡◌, Bool, true, false, not, ◌&&◌, ◌||◌, Option, none, some, List, [], ◌∷◌, Bytes, codes,
  String, arith, leb, ◌≤◌, refl, ◌==◌, if◌then◌else◌, map, bytes_eq,
}
use on_code.Prelude.Space.{trim_space}
use on_code.Protocol.Json.{
  Value, null, boolean, number, str, array, object, Items, nil, item, Fields, end, field, lookup,
  text_of,
}

-- `strings.ToLower` on the characters of a key, as far as it gives ASCII: besides the capital letters, U+0130
-- becomes an i and U+212A a k. The lower case of any other character is not ASCII, and stands in none of
-- the keys below, as the character itself does not.
abbrev lower : ℕ → ℕ
lower c =
    if c == 304 then 105 else if c == 8490 then 107 else if leb 65 c && leb c 90 then c + 32 else c

abbrev forbidden_keys : List Bytes
forbidden_keys =
    codes "content"
    ∷ codes "source"
    ∷ codes "selected_text"
    ∷ codes "selection_text"
    ∷ codes "file_content"
    ∷ codes "source_text"
    ∷ []

unfoldable pub stands_in : Bytes → List Bytes → Bool
stands_in k [] = false
stands_in k (p ∷ ps) = bytes_eq k p || stands_in k ps

-- the key "message" is none of the six, so the source's second test of it never decides
unfoldable pub is_forbidden : String → Bool
unfolding stands_in
is_forbidden k =
    let key = map lower (codes k) in
    stands_in key forbidden_keys && not (bytes_eq key (codes "message"))

-- `rejectForbidden`; false stands for its error
unfoldable mutual
  pub allowed : Value → Bool
  allowed null = true
  allowed (boolean b) = true
  allowed (number n) = true
  allowed (str s) = true
  allowed (array xs) = allowed_items xs
  allowed (object m) = allowed_fields m

  pub allowed_items : Items → Bool
  allowed_items nil = true
  allowed_items (item v xs) = allowed v && allowed_items xs

  pub allowed_fields : Fields → Bool
  allowed_fields end = true
  allowed_fields (field k v m) = not (is_forbidden k) && (allowed v && allowed_fields m)

-- does a text hold a byte?
unfoldable pub holds : ℕ → Bytes → Bool
holds b [] = false
holds b (c ∷ s) = (c == b) || holds b s

abbrev is_path : Option Value → Bool
is_path (some (object ctx)) = not (holds b'\n' (text_of (lookup "current_file" ctx)))
is_path _ = true

-- `ValidateSubmit`; `none` is the nil map
unfoldable pub validate_submit : Option Fields → Bool
unfolding holds
validate_submit none = false
validate_submit (some m) =
    not (bytes_eq (trim_space (text_of (lookup "message" m))) [])
    && (allowed_fields m && is_path (lookup "ide_context" m))

-- A character of a key that counts as a character of a word: the same one, the capital of a letter, or the one
-- of the two other characters whose lower case is that letter.
pub data CountsAs : ℕ → ℕ → Type 0 where
  same_letter : (c : ℕ) → 95 ≤ c → c ≤ 122 → CountsAs c c
  capital : (c : ℕ) → 65 ≤ c → c ≤ 90 → CountsAs c (c + 32)
  dotted_capital_i : CountsAs 304 105
  kelvin_sign : CountsAs 8490 107

pub data Spells : Bytes → Bytes → Type 0 where
  spelled_nil : Spells [] []
  spelled_cons : {c d : ℕ} {s t : Bytes} → CountsAs c d → Spells s t → Spells (c ∷ s) (d ∷ t)

-- A key that spells none of the six words for source text, in whatever case.
pub record NamesNoSource (k : String) : Type 0 where
  pub not_content : ¬ Spells (codes k) (codes "content")
  pub not_source : ¬ Spells (codes k) (codes "source")
  pub not_selected : ¬ Spells (codes k) (codes "selected_text")
  pub not_selection : ¬ Spells (codes k) (codes "selection_text")
  pub not_file : ¬ Spells (codes k) (codes "file_content")
  pub not_source_text : ¬ Spells (codes k) (codes "source_text")

lower_counts : {c d : ℕ} → CountsAs c d → lower c ≡ d
lower_counts (same_letter c h g) = ground (arith, h, g)
lower_counts (capital c h g) = ground (arith, h, g)
lower_counts dotted_capital_i = refl
lower_counts kelvin_sign = refl

map-Spells : {s t : Bytes} → Spells s t → map lower s ≡ t
map-Spells spelled_nil = refl
map-Spells (spelled_cons c s) = cc (lower_counts c, map-Spells s)

-- a key that spells a word of the list is forbidden
spelled_lem :
    (k : String) (word : Bytes)
    → is_forbidden k ≡ false
    → (stands_in word forbidden_keys && not (bytes_eq word (codes "message"))) ≡ true
    → ¬ Spells (codes k) word
unfolding is_forbidden
spelled_lem k word h listed s = absurd (cc (rw (map-Spells s) at h, listed))

is_forbidden-NamesNoSource : (k : String) → is_forbidden k ≡ false → NamesNoSource k
unfolding stands_in bytes_eq
is_forbidden-NamesNoSource k h = record {
  not_content = spelled_lem k (codes "content") h refl;
  not_source = spelled_lem k (codes "source") h refl;
  not_selected = spelled_lem k (codes "selected_text") h refl;
  not_selection = spelled_lem k (codes "selection_text") h refl;
  not_file = spelled_lem k (codes "file_content") h refl;
  not_source_text = spelled_lem k (codes "source_text") h refl;
}

-- A value in which no key of any object, at any depth, names source text.
mutual
  pub data IsClean : Value → Type 0 where
    clean_null : IsClean null
    clean_boolean : (b : Bool) → IsClean (boolean b)
    clean_number : (n : ℕ) → IsClean (number n)
    clean_str : (s : Bytes) → IsClean (str s)
    clean_array : {xs : Items} → AreClean xs → IsClean (array xs)
    clean_object : {m : Fields} → HaveCleanKeys m → IsClean (object m)

  pub data AreClean : Items → Type 0 where
    clean_nil : AreClean nil
    clean_item : {v : Value} {xs : Items} → IsClean v → AreClean xs → AreClean (item v xs)

  pub data HaveCleanKeys : Fields → Type 0 where
    clean_end : HaveCleanKeys end
    clean_field :
        {k : String} {v : Value} {m : Fields}
        → NamesNoSource k
        → IsClean v
        → HaveCleanKeys m
        → HaveCleanKeys (field k v m)

mutual
  unfolding allowed allowed_items allowed_fields

  allowed-IsClean : (v : Value) → allowed v ≡ true → IsClean v
  allowed-IsClean null e = clean_null
  allowed-IsClean (boolean b) e = clean_boolean b
  allowed-IsClean (number n) e = clean_number n
  allowed-IsClean (str s) e = clean_str s
  allowed-IsClean (array xs) e = clean_array (allowed_items-AreClean xs e)
  allowed-IsClean (object m) e = clean_object (allowed_fields-HaveCleanKeys m e)

  allowed_items-AreClean : (xs : Items) → allowed_items xs ≡ true → AreClean xs
  allowed_items-AreClean nil e = clean_nil
  allowed_items-AreClean (item v xs) e =
      clean_item (allowed-IsClean v (ground arith)) (allowed_items-AreClean xs (ground arith))

  allowed_fields-HaveCleanKeys : (m : Fields) → allowed_fields m ≡ true → HaveCleanKeys m
  allowed_fields-HaveCleanKeys end e = clean_end
  allowed_fields-HaveCleanKeys (field k v m) e =
      clean_field (is_forbidden-NamesNoSource k (ground arith)) (allowed-IsClean v (ground arith))
        (allowed_fields-HaveCleanKeys m (ground arith))

-- A chat message that is accepted has no key for source text in any of its objects, at any depth: none spells
-- content, source, selected_text, selection_text, file_content or source_text, where capitals count as
-- their letters, and so do the two other characters whose lower case is a letter of ASCII.
pub validate_submit-HaveCleanKeys : (m : Fields) → validate_submit (some m) ≡ true → HaveCleanKeys m
unfolding validate_submit
validate_submit-HaveCleanKeys m e = allowed_fields-HaveCleanKeys m (ground arith)
