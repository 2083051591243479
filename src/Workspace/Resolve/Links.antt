-- ===== src/Workspace/Resolve/Links.antt =====
-- Where the links of a path lead (local-agent/internal/workspace/path.go).
use on_code.Prelude.{
  ◌≡◌, ◌∙◌, refl, sym, ap, Bool, true, Option, none, some, List, [], ◌∷◌, ◌++◌, reverse, Bytes, ok,
  ensure, >>=-eq-ok, append_assoc, not, is_empty, ◌⊎◌, inl, inr, append-nil,
}
use mathlib.Core.List.{reverse-cons, reverse-reverse}
use on_code.Prelude.Space.{trim_space}
use on_code.Prelude.Paths.{FilePath, clean, join, render, goes_up, starts_with_slash}
use on_code.Protocol.Errors.{invalid_path, path_outside_workspace}
use on_code.Workspace.Disk.{Disk, IsLawful, Stat, found, missing, unknown, Info}
use on_code.Workspace.Resolve.{
  Workspace, within_root, Prefix, has_none, is_link, at_back, link_error, find_prefix, evaluated,
  resolve_existing, check_text, resolve_path,
}
use on_code.Workspace.Resolve.Root.{Below, resolve_path-eq-resolve_after, resolve_path-Below}

abbrev pub rooted_at : List Bytes → FilePath
rooted_at es = record { rooted = true; elements = es }

stat_cases : (o : Stat) → ((i : Info) × (o ≡ found i)) ⊎ ((o ≡ missing) ⊎ (o ≡ unknown))
stat_cases (found i) = inl (i, refl)
stat_cases missing = inr (inl refl)
stat_cases unknown = inr (inr refl)

module _ (D : Disk) where
  -- What a path goes on with behind a folder is missing, each element.
  abbrev pub AreMissing : D.State → List Bytes → List Bytes → Type 0
  AreMissing s there [] = Unit
  AreMissing s there (e ∷ es) =
      (D.lstat s (render (rooted_at (there ++ e ∷ []))) ≡ missing)
      × AreMissing s (there ++ e ∷ []) es

  -- The longest part of a path that exists, and the elements behind it, which are missing.
  pub record IsLongest (s : D.State) (whole there rest : List Bytes) : Type 0 where
    pub split_path : there ++ rest ≡ whole
    pub info : Info
    pub exists : D.lstat s (render (rooted_at there)) ≡ found info
    pub rest_missing : AreMissing s there rest

  -- A path that a text is resolved to: it is below the root, and it is the one that the operating system
  -- evaluates the links of the longest existing part of the joined path to, with the rest behind it.
  pub record Resolves (ws : Workspace) (s : D.State) (text : Bytes) (path : FilePath) : Type 0 where
    pub below : Below ws.root path
    pub there : List Bytes
    pub rest : List Bytes
    pub longest : IsLongest s (join ws.root (clean (trim_space text)).elements).elements there rest
    pub target : Bytes
    pub followed : D.eval_symlinks s (render (rooted_at there)) ≡ some target
    pub leads : path ≡ join (clean target) rest

  step_up :
      (s : D.State) (e : Bytes) (back rest : List Bytes)
      → D.lstat s (render (at_back (e ∷ back))) ≡ missing
      → AreMissing s (reverse (e ∷ back)) rest
      → AreMissing s (reverse back) (e ∷ rest)
  step_up s e back rest gone h = (
    ap (λ es. D.lstat s (render (rooted_at es))) (sym (reverse-cons e back)) ∙ gone,
    rw (← reverse-cons e back) h,
  )

  stops_here :
      (s : D.State) (back rest : List Bytes) (i : Info) (p : Prefix)
      → D.lstat s (render (at_back back)) ≡ found i
      → record { back = back; rest = rest; linked = is_link i.kind } ≡ p
      → AreMissing s (reverse back) rest
      → IsLongest s (reverse back ++ rest) (reverse p.back) p.rest
  stops_here s back rest i p here e h =
      rw (← e) (record { split_path = refl; info = i; exists = here; rest_missing = h })

  find_prefix-IsLongest :
      (s : D.State) (back rest : List Bytes) (p : Prefix)
      → find_prefix D s back rest ≡ ok p
      → AreMissing s (reverse back) rest
      → IsLongest s (reverse back ++ rest) (reverse p.back) p.rest
  unfolding find_prefix
  find_prefix-IsLongest s [] rest p e h = elim (stat_cases (D.lstat s (render (at_back [])))) [
    | inl (i, here) ↦ stops_here s [] rest i p here (cc (rw (here, find_prefix) at e)) h
    | inr (inl gone) ↦ absurd (cc (rw (gone, find_prefix) at e))
    | inr (inr fails) ↦ absurd (cc (rw (fails, find_prefix) at e))
  ]
  find_prefix-IsLongest s (b ∷ back) rest p e h =
      elim (stat_cases (D.lstat s (render (at_back (b ∷ back))))) [
        | inl (i, here) ↦ stops_here s (b ∷ back) rest i p here (cc (rw (here, find_prefix) at e)) h
        | inr (inl gone) ↦
            let up =
              find_prefix-IsLongest s back (b ∷ rest) p (rw (gone, find_prefix) at e)
                (step_up s b back rest gone h) in
            let same : reverse (b ∷ back) ++ rest ≡ reverse back ++ b ∷ rest =
              ap (λ l. l ++ rest) (reverse-cons b back)
              ∙ append_assoc (reverse back) (b ∷ []) rest in
            rw same up
        | inr (inr fails) ↦ absurd (cc (rw (fails, find_prefix) at e))
      ]

  evaluated-Follows :
      (o : Option Bytes) (p : FilePath)
      → evaluated D o ≡ ok p
      → (target : Bytes) × (o ≡ some target) × (clean target ≡ p)
  evaluated-Follows none p e = absurd (cc e)
  evaluated-Follows (some text) p e = (text, refl, cc e)

  -- what the resolution of an existing part gives
  abbrev Existing : D.State → List Bytes → FilePath → Type 0
  Existing s whole path =
      (there : List Bytes) × (rest : List Bytes) × (target : Bytes) × IsLongest s whole there rest
      × (D.eval_symlinks s (render (rooted_at there)) ≡ some target)
      × (path ≡ join (clean target) rest)

  resolve_existing-Existing :
      (s : D.State) (path : FilePath) (r : FilePath × Bool)
      → resolve_existing D s path ≡ ok r
      → Existing s path.elements r.0
  unfolding resolve_existing
  resolve_existing-Existing s path r e =
      let (prefix, found_prefix, e1) = >>=-eq-ok (find_prefix D s (reverse path.elements) []) _ e in
      let (target, now, e2) =
        >>=-eq-ok (evaluated D (D.eval_symlinks s (render (at_back prefix.back)))) _ e1 in
      let (text, followed, cleaned) =
        evaluated-Follows (D.eval_symlinks s (render (at_back prefix.back))) target now in
      let longest = find_prefix-IsLongest s (reverse path.elements) [] prefix found_prefix tt in
      let whole : reverse (reverse path.elements) ++ [] ≡ path.elements =
        append-nil (reverse (reverse path.elements)) ∙ reverse-reverse path.elements in
      let same : join target prefix.rest ≡ r.0 = cc e2 in
      (
        reverse prefix.back,
        prefix.rest,
        text,
        rw whole at longest,
        followed,
        sym same ∙ ap (λ t. join t prefix.rest) (sym cleaned),
      )

  check_text-cleans :
      (text : Bytes) (p : FilePath) → check_text D text ≡ ok p → clean (trim_space text) ≡ p
  unfolding check_text
  check_text-cleans text p e =
      let path = trim_space text in
      let (_, _, e1) = >>=-eq-ok (ensure (not (is_empty path)) invalid_path) _ e in
      let (_, _, e2) =
        >>=-eq-ok (ensure (not (starts_with_slash path)) path_outside_workspace) _ e1 in
      let (_, _, e3) =
        >>=-eq-ok (ensure (not (has_none (clean path).elements)) invalid_path) _ e2 in
      let (_, _, e4) =
        >>=-eq-ok (ensure (not (goes_up (clean path).elements)) path_outside_workspace) _ e3 in
      cc e4

  -- A path that ResolvePath returns has its links resolved, and is below the root of the workspace with them
  -- resolved, by elements that name files: the path is joined to the root, the longest part of it that
  -- exists is replaced by what the operating system evaluates its links to, the elements behind it are
  -- missing and kept, and what comes out does not escape.
  pub resolve_path-Resolves :
      (law : IsLawful D) (ws : Workspace) (s : D.State) (text : Bytes) (path : FilePath)
      → resolve_path D ws s text ≡ ok path
      → Resolves ws s text path
  resolve_path-Resolves law ws s text path e =
      let e0 = rw (resolve_path-eq-resolve_after D ws s text) at e in
      let (cleaned, checked, e1) = >>=-eq-ok (check_text D text) _ e0 in
      let (resolved, now, e2) =
        >>=-eq-ok (resolve_existing D s (join ws.root cleaned.elements)) _ e1 in
      let (_, _, e3) =
        >>=-eq-ok (ensure (within_root ws.root resolved.0) (link_error resolved.1)) _ e2 in
      let same : resolved.0 ≡ path = cc e3 in
      let (there, rest, target, longest, followed, leads) =
        resolve_existing-Existing s (join ws.root cleaned.elements) resolved now in
      record {
        below = resolve_path-Below D law ws s text path e;
        there = there;
        rest = rest;
        longest = rw (check_text-cleans text cleaned checked) longest;
        target = target;
        followed = followed;
        leads = sym same ∙ leads;
      }
