-- ===== src/Workspace/Search/Limited.antt =====
-- Matches that are added up to a limit (local-agent/internal/workspace/search.go).
use on_code.Prelude.{
  ℕ, ◌-◌, ◌≡◌, ◌∙◌, refl, sym, ap, inl, inr, Bool, true, false, List, [], ◌∷◌, ◌++◌, arith, ltb,
  leb, if◌then◌else◌, length, take, append_assoc, take_all, take-append, append-nil, length-append,
  Bool-cases,
}
use on_code.Workspace.Hits.{Match, Hits, known_match, Progress, add, and_then}

-- The matches that are not known yet, each one once.
unfoldable pub fresh : List Match → List Match → List Match
fresh seen [] = []
fresh seen (m ∷ ms) = if known_match m seen then fresh seen ms else m ∷ fresh (seen ++ m ∷ []) ms

-- All of these matches are added, up to a limit.
unfoldable pub add_all : ℕ → List Match → Hits → Progress
add_all max [] r = (true, r)
add_all max (m ∷ ms) r = and_then (add max m r) (add_all max ms)

-- the hits that a limit leaves of all matches
abbrev pub limited : ℕ → List Match → Hits
limited max ms = record { matches = take max ms; truncated = ltb max (length ms) }

take_exact : (n : ℕ) (xs ys : List Match) → length xs ≡ n → take n (xs ++ ys) ≡ xs
take_exact n xs ys e =
    let left : n - length xs ≡ 0 = omega (arith, e) in
    let nothing : take (n - length xs) ys ≡ [] = ap (λ k. take k ys) left in
    take-append n xs ys (omega (arith, e)) ∙ ap (λ l. xs ++ l) nothing ∙ append-nil xs

and_then_same :
    (m : Progress) (f g : Hits → Progress)
    → ((r : Hits) → m ≡ (true, r) → f r ≡ g r)
    → and_then m f ≡ and_then m g
and_then_same (false, r) f g h = refl
and_then_same (true, r) f g h = h r refl

and_then_assoc :
    (m : Progress) (f g : Hits → Progress)
    → and_then (and_then m f) g ≡ and_then m (λ r. and_then (f r) g)
and_then_assoc (false, r) f g = refl
and_then_assoc (true, r) f g = refl

add_all-append :
    (max : ℕ) (xs ys : List Match) (r : Hits)
    → add_all max (xs ++ ys) r ≡ and_then (add_all max xs r) (add_all max ys)
unfolding add_all
add_all-append max [] ys r = refl
add_all-append max (x ∷ xs) ys r =
    and_then_same (add max x r) _ _ (λ t e. add_all-append max xs ys t)
    ∙ sym (and_then_assoc (add max x r) (add_all max xs) (add_all max ys))

-- as long as matches are added, the hits are not cut
add_open : (max : ℕ) (m : Match) (r t : Hits) → add max m r ≡ (true, t) → t.truncated ≡ r.truncated
unfolding add
add_open max m r t e = ground (arith, e)

and_then-true :
    (p : Progress) (next : Hits → Progress) (t : Hits)
    → and_then p next ≡ (true, t)
    → (x : Hits) × (p ≡ (true, x)) × (next x ≡ (true, t))
and_then-true (false, x) next t e = cc e
and_then-true (true, x) next t e = (x, refl, e)

pub add_all_open :
    (max : ℕ) (ms : List Match) (r t : Hits)
    → add_all max ms r ≡ (true, t)
    → t.truncated ≡ r.truncated
unfolding add_all
add_all_open max [] r t e = cc e
add_all_open max (m ∷ ms) r t e =
    let (x, now, rest) = and_then-true (add max m r) (add_all max ms) t e in
    add_all_open max ms x t rest ∙ add_open max m r x now

-- What is behind an addition: the three cases of `add`.
add_known :
    (max : ℕ) (m : Match) (r : Hits) → known_match m r.matches ≡ true → add max m r ≡ (true, r)
unfolding add
add_known max m r e = rw e refl

add_full :
    (max : ℕ) (m : Match) (r : Hits)
    → known_match m r.matches ≡ false
    → leb max (length r.matches) ≡ true
    → add max m r ≡ (false, record { matches = r.matches; truncated = true })
unfolding add
add_full max m r e f = rw (e, f) refl

add_new :
    (max : ℕ) (m : Match) (r : Hits)
    → known_match m r.matches ≡ false
    → leb max (length r.matches) ≡ false
    → add max m r ≡ (true, record { matches = r.matches ++ m ∷ []; truncated = r.truncated })
unfolding add
add_new max m r e f = rw (e, f) refl

limited_full :
    (max : ℕ) (xs : List Match) (m : Match) (ys : List Match)
    → length xs ≡ max
    → limited max (xs ++ m ∷ ys) ≡ record { matches = xs; truncated = true }
limited_full max xs m ys e =
    ap (λ l. record { matches = l; truncated = ltb max (length (xs ++ m ∷ ys)) })
      (take_exact max xs (m ∷ ys) e)
    ∙ ap (λ b. record { matches = xs; truncated = b })
        (ground (arith, e, length-append xs (m ∷ ys)))

pub add_all-limited :
    (max : ℕ) (ms : List Match) (r : Hits)
    → r.truncated ≡ false
    → leb (length r.matches) max ≡ true
    → (add_all max ms r).1 ≡ limited max (r.matches ++ fresh r.matches ms)
unfolding add_all fresh
add_all-limited max [] r uncut fits =
    ap (λ b. record { matches = r.matches; truncated = b }) (uncut ∙ ground (arith, fits))
    ∙ ap (λ l. record { matches = l; truncated = ltb max (length r.matches) })
        (sym (take_all max r.matches (ground (arith, fits))))
    ∙ ap (limited max) (sym (append-nil r.matches))
add_all-limited max (m ∷ ms) r uncut fits = elim (Bool-cases (known_match m r.matches)) [
  | inl known ↦ rw (add_known max m r known, known) (add_all-limited max ms r uncut fits)
  | inr new ↦ elim (Bool-cases (leb max (length r.matches))) [
    | inl full ↦
        let same : length r.matches ≡ max = ground (arith, full, fits) in
        rw (add_full max m r new full, new)
          (sym (limited_full max r.matches m (fresh (r.matches ++ m ∷ []) ms) same))
    | inr free ↦
        let next : Hits = record { matches = r.matches ++ m ∷ []; truncated = r.truncated } in
        rw (add_new max m r new free, new)
          (add_all-limited max ms next uncut
              (ground (arith, free, length-append r.matches (m ∷ [])))
            ∙ ap (limited max) (append_assoc r.matches (m ∷ []) (fresh next.matches ms)))
  ]
]

pub and_then_unit : (p : Progress) → p ≡ and_then p (λ r. (true, r))
and_then_unit (false, r) = refl
and_then_unit (true, r) = refl

pub uncut_lem : (b : Bool) (p q : Progress) → b ≡ false → (if b then p else q) ≡ q
uncut_lem false p q e = refl
uncut_lem true p q e = cc e

-- two parts of a search one behind the other
pub joined :
    (max : ℕ) (xs ys : List Match) (m : Progress) (next : Hits → Progress) (r : Hits)
    → m ≡ add_all max xs r
    → ((t : Hits) → add_all max xs r ≡ (true, t) → next t ≡ add_all max ys t)
    → and_then m next ≡ add_all max (xs ++ ys) r
joined max xs ys m next r first second =
    ap (λ p. and_then p next) first
    ∙ and_then_same (add_all max xs r) next (add_all max ys) second
    ∙ sym (add_all-append max xs ys r)
