-- ===== src/Workspace/Resolve/Root.antt =====
-- Paths stay below the root of their workspace (local-agent/internal/workspace/path.go).
use on_code.Prelude.{
  ◌≡◌, refl, Bool, true, false, not, Option, none, some, List, [], ◌∷◌, ◌++◌, reverse, Bytes,
  Result, ok, ◌>>=◌, ◌>>◌, ensure, >>=-eq-ok, ensure-eq-ok, arith, All, inl, inr, ◌↔◌, Result-cases,
  is_empty,
}
use on_code.Prelude.Space.{trim_space}
use on_code.Prelude.Paths.{
  FilePath, clean, join, render, rel, goes_up, IsPlain, starts_with_slash, clean-IsPlain,
  clean-rooted, join-IsPlain, join-plain, rel-append, rel_sound,
}
use on_code.Protocol.Errors.{Code, invalid_path, path_outside_workspace}
use on_code.Workspace.Disk.{Disk, IsLawful}
use on_code.Workspace.Resolve.{
  Workspace, within_root, has_none, at_back, link_error, find_prefix, evaluated, resolve_existing,
  check_text, resolve_path,
}

plain-stays : (es : List Bytes) → All IsPlain es → goes_up es ≡ false
plain-stays [] h = refl
plain-stays (e ∷ es) h = h.0.2

All-drop : (P : Bytes → Type 0) (xs ys : List Bytes) → All P (xs ++ ys) → All P ys
All-drop P [] ys h = h
All-drop P (x ∷ xs) ys h = All-drop P xs ys h.1

-- Where a target is not reached by going up, it stands below the root, and else it does not.
pub within_root_iff :
    (root candidate : FilePath)
    → All IsPlain candidate.elements
    → (within_root root candidate ≡ true)
      ↔ ((rest : List Bytes) × (candidate.elements ≡ root.elements ++ rest))
unfolding within_root
within_root_iff root candidate h = (
  λ e. (
    rel root.elements candidate.elements,
    rel_sound root.elements candidate.elements (ground arith),
  ),
  λ below.
      rw (below.1, rel-append root.elements below.0)
        (rw (plain-stays below.0 (All-drop IsPlain root.elements below.0 (rw below.1 at h))) refl),
)

-- A path that stands below a root, by elements that name files.
pub record Below (root path : FilePath) : Type 0 where
  pub plain : All IsPlain path.elements
  pub rest : List Bytes
  pub spelled : path.elements ≡ root.elements ++ rest

-- A cleaned path that does not climb is below the root as soon as it is joined to it.
join-within_root :
    (root p : FilePath) → All IsPlain p.elements → within_root root (join root p.elements) ≡ true
unfolding within_root
join-within_root root p h =
    rw (join-plain root p.elements h, rel-append root.elements p.elements)
      (rw (plain-stays p.elements h) refl)

render-absolute :
    (es : List Bytes) → starts_with_slash (render (record { rooted = true; elements = es })) ≡ true
unfolding render
render-absolute es = refl

module _ (D : Disk) where
  check_text-IsPlain :
      (text : Bytes) (p : FilePath) → check_text D text ≡ ok p → All IsPlain p.elements
  unfolding check_text
  check_text-IsPlain text p e =
      let path = trim_space text in
      let (_, _, e1) = >>=-eq-ok (ensure (not (is_empty path)) invalid_path) _ e in
      let (_, _, e2) =
        >>=-eq-ok (ensure (not (starts_with_slash path)) path_outside_workspace) _ e1 in
      let (_, _, e3) =
        >>=-eq-ok (ensure (not (has_none (clean path).elements)) invalid_path) _ e2 in
      let (u, down, e4) =
        >>=-eq-ok (ensure (not (goes_up (clean path).elements)) path_outside_workspace) _ e3 in
      let same : clean path ≡ p = cc e4 in
      rw (← same) (clean-IsPlain path (ground (arith, ensure-eq-ok _ _ u down)))

  -- `ResolvePath` without its first test of the joined path
  abbrev pub resolve_after : Workspace → D.State → FilePath → Result Code FilePath
  resolve_after ws s cleaned = do
    resolved ← resolve_existing D s (join ws.root cleaned.elements)
    ensure (within_root ws.root resolved.0) (link_error resolved.1)
    ok resolved.0

  -- The test of the joined path, in front of the links, never refuses: what a path is refused for is
  -- its text, or what its links are resolved to.
  pub resolve_path-eq-resolve_after :
      (ws : Workspace) (s : D.State) (text : Bytes)
      → resolve_path D ws s text ≡ (check_text D text >>= resolve_after ws s)
  unfolding resolve_path
  resolve_path-eq-resolve_after ws s text = elim (Result-cases (check_text D text)) [
    | inl good ↦
        rw good.1
          (rw (join-within_root ws.root good.0 (check_text-IsPlain text good.0 good.1)) refl)
    | inr bad ↦ rw bad.1 refl
  ]

  module _ (law : IsLawful D) where
    absolute-IsPlain :
        (s : D.State) (back : List Bytes) (p : FilePath) (o : Option Bytes)
        → D.eval_symlinks s (render (at_back back)) ≡ o
        → evaluated D o ≡ ok p
        → (p.rooted ≡ true) × All IsPlain p.elements
    absolute-IsPlain s back p none now e = cc e
    absolute-IsPlain s back p (some text) now e =
        let absolute =
          law.eval_symlinks-absolute s (render (at_back back)) text (render-absolute (reverse back))
            now in
        let same : clean text ≡ p = cc e in
        rw (← same) (unfold clean in absolute, clean-rooted text absolute)

    evaluated-IsPlain :
        (s : D.State) (back : List Bytes) (p : FilePath)
        → evaluated D (D.eval_symlinks s (render (at_back back))) ≡ ok p
        → (p.rooted ≡ true) × All IsPlain p.elements
    evaluated-IsPlain s back p e =
        absolute-IsPlain s back p (D.eval_symlinks s (render (at_back back))) refl e

    resolve_existing-IsPlain :
        (s : D.State) (path : FilePath) (r : FilePath × Bool)
        → resolve_existing D s path ≡ ok r
        → All IsPlain r.0.elements
    unfolding resolve_existing
    resolve_existing-IsPlain s path r e =
        let (prefix, _, e1) = >>=-eq-ok (find_prefix D s (reverse path.elements) []) _ e in
        let (target, now, e2) =
          >>=-eq-ok (evaluated D (D.eval_symlinks s (render (at_back prefix.back)))) _ e1 in
        let (rooted, plain) = evaluated-IsPlain s prefix.back target now in
        let same : join target prefix.rest ≡ r.0 = cc e2 in
        rw (← same) (join-IsPlain target prefix.rest rooted plain)

    -- Every path that is returned is below the root of its workspace, and goes there by elements that name files.
    pub resolve_path-Below :
        (ws : Workspace) (s : D.State) (text : Bytes) (path : FilePath)
        → resolve_path D ws s text ≡ ok path
        → Below ws.root path
    unfolding within_root
    resolve_path-Below ws s text path e =
        let e0 = rw (resolve_path-eq-resolve_after ws s text) at e in
        let (cleaned, _, e1) = >>=-eq-ok (check_text D text) _ e0 in
        let (resolved, now, e2) =
          >>=-eq-ok (resolve_existing D s (join ws.root cleaned.elements)) _ e1 in
        let (u, inside, e3) =
          >>=-eq-ok (ensure (within_root ws.root resolved.0) (link_error resolved.1)) _ e2 in
        let same : resolved.0 ≡ path = cc e3 in
        let stays : goes_up (rel ws.root.elements resolved.0.elements) ≡ false =
          ground (arith, ensure-eq-ok _ _ u inside) in
        rw (← same) (record {
          plain = resolve_existing-IsPlain s (join ws.root cleaned.elements) resolved now;
          rest = rel ws.root.elements resolved.0.elements;
          spelled = rel_sound ws.root.elements resolved.0.elements stays;
        })
