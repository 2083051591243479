-- ===== src/Prelude/Paths.antt =====
-- What the source takes from package path/filepath, on Unix: a clean path as the list of its elements.
use mathlib.Core.Path.{◌≡◌, refl, ◌∙◌, sym}
use mathlib.Core.Logic.{◌⊎◌, inl, inr}
use mathlib.Core.Bool.{Bool, true, false, ◌||◌}
use mathlib.Core.List.{
  List, [], ◌∷◌, ◌++◌, reverse, append_assoc, reverse_aux, reverse-cons, reverse-append,
  reverse-reverse,
}
use native.Mathlib.Omega.{arith}
use on_code.Prelude.Tests.{◌==◌, if◌then◌else◌, Bool-cases}
use on_code.Prelude.Lists.{All}
use on_code.Prelude.Texts.{Bytes, codes, bytes_eq, bytes_eq_refl, bytes_eq→eq, split}

abbrev pub dot : Bytes
dot = codes "."

abbrev pub dot_dot : Bytes
dot_dot = codes ".."

-- Is it absolute, and its elements from the first to the last one.
pub record FilePath : Type 0 where
  pub rooted : Bool
  pub elements : List Bytes

-- an element ".." behind those that are held backwards
unfoldable pub climb : Bool → List Bytes → List Bytes
climb true [] = []
climb false [] = dot_dot ∷ []
climb rooted (last ∷ rest) = if bytes_eq last dot_dot then dot_dot ∷ last ∷ rest else rest

unfoldable pub push : Bool → Bytes → List Bytes → List Bytes
unfolding climb
push rooted e above =
    if bytes_eq e [] || bytes_eq e dot
    then above
    else if bytes_eq e dot_dot
    then climb rooted above
    else e ∷ above

unfoldable pub push_all : Bool → List Bytes → List Bytes → List Bytes
unfolding push
push_all rooted above [] = above
push_all rooted above (e ∷ es) = push_all rooted (push rooted e above) es

abbrev pub starts_with_slash : Bytes → Bool
starts_with_slash [] = false
starts_with_slash (c ∷ s) = c == b'/'

-- `filepath.Clean`; the text "." stands for no elements.
unfoldable pub clean : Bytes → FilePath
unfolding push_all
clean s =
    let rooted = starts_with_slash s in
    record { rooted = rooted; elements = reverse (push_all rooted [] (split b'/' s)) }

abbrev pub joined : List Bytes → Bytes
joined [] = []
joined (e ∷ []) = e
joined (e ∷ f ∷ es) = e ++ b'/' ∷ joined (f ∷ es)

-- the text of a clean path
unfoldable pub render : FilePath → Bytes
render p =
    if p.rooted
    then b'/' ∷ joined p.elements
    else elim p.elements [ [] ↦ dot | e ∷ es ↦ joined (e ∷ es) ]

-- `filepath.Join` of a clean path and more elements
unfoldable pub join : FilePath → List Bytes → FilePath
unfolding push_all
join p es = record p { elements = reverse (push_all p.rooted (reverse p.elements) es) }

-- An element that names a file.
abbrev pub IsPlain : Bytes → Type 0
IsPlain e = (bytes_eq e [] ≡ false) × (bytes_eq e dot ≡ false) × (bytes_eq e dot_dot ≡ false)

-- The three ways to go on from an element.
push-cases :
    (rooted : Bool) (e : Bytes) (above : List Bytes)
    → (push rooted e above ≡ above)
      ⊎ ((push rooted e above ≡ climb rooted above)
          ⊎ (IsPlain e × (push rooted e above ≡ e ∷ above)))
unfolding push
push-cases rooted e above = elim (Bool-cases (bytes_eq e [] || bytes_eq e dot)) [
  | inl skipped ↦ inl (rw skipped refl)
  | inr named ↦ elim (Bool-cases (bytes_eq e dot_dot)) [
    | inl up ↦ inr (inl (ground arith))
    | inr down ↦ inr (inr ((ground arith, ground arith, down), ground arith))
  ]
]

push-plain :
    (rooted : Bool) (e : Bytes) (above : List Bytes) → IsPlain e → push rooted e above ≡ e ∷ above
unfolding push
push-plain rooted e above h = ground arith

-- A plain list is kept as it is.
pub push_all-plain :
    (rooted : Bool) (above es : List Bytes)
    → All IsPlain es
    → push_all rooted above es ≡ reverse es ++ above
unfolding push_all
push_all-plain rooted above [] h = refl
push_all-plain rooted above (e ∷ es) h =
    rw (push-plain rooted e above h.0, push_all-plain rooted (e ∷ above) es h.1, reverse-cons e es)
      (sym (append_assoc (reverse es) (e ∷ []) above))

abbrev AllUp : List Bytes → Type 0
AllUp = All (λ d. bytes_eq d dot_dot ≡ true)

-- The elements of a clean path, backwards: those that climb stand at its front.
abbrev Shape : List Bytes → Type 0
Shape [] = Unit
Shape (e ∷ above) = (IsPlain e × Shape above) ⊎ AllUp (e ∷ above)

climb-Shape : (rooted : Bool) (above : List Bytes) → Shape above → Shape (climb rooted above)
unfolding climb bytes_eq
climb-Shape true [] h = tt
climb-Shape false [] h = inr (refl, tt)
climb-Shape true (last ∷ above) (inl h) = rw (h.0.2, climb) h.1
climb-Shape false (last ∷ above) (inl h) = rw (h.0.2, climb) h.1
climb-Shape true (last ∷ above) (inr h) = rw (h.0, climb) (inr (refl, h))
climb-Shape false (last ∷ above) (inr h) = rw (h.0, climb) (inr (refl, h))

push-Shape :
    (rooted : Bool) (e : Bytes) (above : List Bytes) → Shape above → Shape (push rooted e above)
push-Shape rooted e above h = elim (push-cases rooted e above) [
  | inl same ↦ rw same h
  | inr (inl up) ↦ rw up (climb-Shape rooted above h)
  | inr (inr down) ↦ rw down.1 (inl (down.0, h))
]

push_all-Shape :
    (rooted : Bool) (above es : List Bytes) → Shape above → Shape (push_all rooted above es)
unfolding push_all
push_all-Shape rooted above [] h = h
push_all-Shape rooted above (e ∷ es) h =
    push_all-Shape rooted (push rooted e above) es (push-Shape rooted e above h)

climb-IsPlain : (above : List Bytes) → All IsPlain above → All IsPlain (climb true above)
unfolding climb
climb-IsPlain [] h = tt
climb-IsPlain (last ∷ above) h = rw (h.0.2, climb) h.1

push-IsPlain :
    (e : Bytes) (above : List Bytes) → All IsPlain above → All IsPlain (push true e above)
push-IsPlain e above h = elim (push-cases true e above) [
  | inl same ↦ rw same h
  | inr (inl up) ↦ rw up (climb-IsPlain above h)
  | inr (inr down) ↦ rw down.1 (down.0, h)
]

-- A clean absolute path does not climb at all.
push_all-IsPlain :
    (above es : List Bytes) → All IsPlain above → All IsPlain (push_all true above es)
unfolding push_all
push_all-IsPlain above [] h = h
push_all-IsPlain above (e ∷ es) h = push_all-IsPlain (push true e above) es (push-IsPlain e above h)

All-reverse_aux :
    (P : Bytes → Type 0) (es above : List Bytes)
    → All P es
    → All P above
    → All P (reverse_aux es above)
All-reverse_aux P [] above h g = g
All-reverse_aux P (e ∷ es) above h g = All-reverse_aux P es (e ∷ above) h.1 (h.0, g)

-- The first element climbs.
abbrev pub goes_up : List Bytes → Bool
goes_up [] = false
goes_up (e ∷ es) = bytes_eq e dot_dot

up-reverse_aux :
    (es above : List Bytes)
    → AllUp (es)
    → goes_up above ≡ true
    → goes_up (reverse_aux es above) ≡ true
up-reverse_aux [] above h g = g
up-reverse_aux (e ∷ es) above h g = up-reverse_aux es (e ∷ above) h.1 h.0

-- Where the first element does not climb, none does.
IsPlain-reverse :
    (back above : List Bytes)
    → Shape back
    → All IsPlain above
    → goes_up (reverse_aux back above) ≡ false
    → All IsPlain (reverse_aux back above)
IsPlain-reverse [] above h g e = g
IsPlain-reverse (b ∷ back) above (inl h) g e = IsPlain-reverse back (b ∷ above) h.1 (h.0, g) e
IsPlain-reverse (b ∷ back) above (inr h) g e =
    absurd (cc (up-reverse_aux back (b ∷ above) h.1 h.0, e))

-- A clean path whose first element does not climb has plain elements only.
pub clean-IsPlain :
    (s : Bytes) → goes_up (clean s).elements ≡ false → All IsPlain (clean s).elements
unfolding clean
clean-IsPlain s e =
    IsPlain-reverse (push_all (starts_with_slash s) [] (split b'/' s)) []
      (push_all-Shape (starts_with_slash s) [] (split b'/' s) tt) tt e

pub clean-rooted : (s : Bytes) → starts_with_slash s ≡ true → All IsPlain (clean s).elements
unfolding clean
clean-rooted s r = rw r (
    All-reverse_aux IsPlain (push_all true [] (split b'/' s)) []
      (push_all-IsPlain [] (split b'/' s) tt) tt)

pub join-IsPlain :
    (p : FilePath) (es : List Bytes)
    → p.rooted ≡ true
    → All IsPlain p.elements
    → All IsPlain (join p es).elements
unfolding join
join-IsPlain p es r h = rw r (
    All-reverse_aux IsPlain (push_all true (reverse p.elements) es) []
      (push_all-IsPlain (reverse p.elements) es (All-reverse_aux IsPlain p.elements [] h tt)) tt)

-- Plain elements are put behind a path.
pub join-plain :
    (p : FilePath) (es : List Bytes) → All IsPlain es → (join p es).elements ≡ p.elements ++ es
unfolding join
join-plain p es h = rw (push_all-plain p.rooted (reverse p.elements) es h) (
    reverse-append (reverse es) (reverse p.elements)
    ∙ rw (reverse-reverse p.elements, reverse-reverse es))

-- the way up from a directory, and down again
abbrev up_over : List Bytes → List Bytes → List Bytes
up_over [] target = target
up_over (b ∷ base) target = dot_dot ∷ up_over base target

-- `filepath.Rel` of two clean absolute paths
unfoldable pub rel : List Bytes → List Bytes → List Bytes
rel [] target = target
rel (b ∷ base) [] = up_over (b ∷ base) []
rel (b ∷ base) (t ∷ target) =
    let inside = rel base target in if bytes_eq b t then inside else up_over (b ∷ base) (t ∷ target)

pub rel-append : (base rest : List Bytes) → rel base (base ++ rest) ≡ rest
unfolding rel
rel-append [] rest = refl
rel-append (b ∷ base) rest = rw (bytes_eq_refl b) (rel-append base rest)

-- A target that is not reached by going up stands below.
pub rel_sound :
    (base target : List Bytes)
    → goes_up (rel base target) ≡ false
    → target ≡ base ++ rel base target
unfolding rel
rel_sound [] target e = refl
rel_sound (b ∷ base) [] e = absurd (cc (e, bytes_eq_refl dot_dot))
rel_sound (b ∷ base) (t ∷ target) e = elim (Bool-cases (bytes_eq b t)) [
  | inl same ↦
      let below = rel_sound base target (rw (same, rel) at e) in
      rw (same, rel) (cc (bytes_eq→eq b t same, below))
  | inr other ↦ absurd (cc (rw (other, rel) at e, bytes_eq_refl dot_dot))
]
