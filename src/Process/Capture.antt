-- ===== src/Process/Capture.antt =====
-- What a log keeps (local-agent/internal/process/runner.go).
use on_code.Prelude.{
  ℕ, ◌-◌, ◌≤◌, ◌≡◌, ◌∙◌, sym, ap, inl, inr, List, [], ◌∷◌, ◌++◌, Bytes, arith, ltb, ◌==◌, length,
  take, append_assoc, append-nil, take_all, take-append, take-append_take, length-take, Bool-cases,
}
use on_code.Process.{write, captured}

-- All that is written, one piece behind the other.
abbrev pub concat : List Bytes → Bytes
concat [] = []
concat (p ∷ ps) = p ++ concat ps

write-eq-take : (max : ℕ) (b p : Bytes) → length b ≤ max → (write max b p).1 ≡ take max (b ++ p)
unfolding write
write-eq-take max b p fits = elim (Bool-cases (max - length b == 0)) [
  | inl full ↦
      let left : max - length b ≡ 0 = ground (arith, full) in
      let nothing : take (max - length b) p ≡ [] = ap (λ k. take k p) left in
      rw full (sym (append-nil b) ∙ sym (take-append max b p fits ∙ ap (λ l. b ++ l) nothing))
  | inr free ↦ elim (Bool-cases (ltb (max - length b) (length p))) [
    | inl long ↦ rw (free, long) (sym (take-append max b p fits))
    | inr short ↦
        let whole : take (max - length b) p ≡ p =
          take_all (max - length b) p (ground (arith, short)) in
        rw (free, short) (sym (take-append max b p fits ∙ ap (λ l. b ++ l) whole))
  ]
]

captured_lem :
    (max : ℕ) (b : Bytes) (ps : List Bytes)
    → length b ≤ max
    → captured max b ps ≡ take max (b ++ concat ps)
unfolding captured
captured_lem max b [] fits = sym (take_all max b fits) ∙ ap (take max) (sym (append-nil b))
captured_lem max b (p ∷ ps) fits =
    let next = write-eq-take max b p fits in
    let small : length (write max b p).1 ≤ max = rw next (length-take max (b ++ p)) in
    captured_lem max (write max b p).1 ps small
    ∙ ap (λ l. take max (l ++ concat ps)) next
    ∙ take-append_take max (b ++ p) (concat ps)
    ∙ ap (take max) (append_assoc b p (concat ps))

write_lem : (max : ℕ) (b p : Bytes) → (write max b p).0 ≡ length p
unfolding write
write_lem max b p = ground arith

-- However a program cuts what it writes into pieces, the log is the beginning of the whole, as long as its
-- limit, and every write is reported as complete, so that the program goes on behind a full log.
pub captured-eq-take :
    (max : ℕ) (b : Bytes) (ps : List Bytes)
    → (captured max [] ps ≡ take max (concat ps))
      × (length (captured max [] ps) ≤ max)
      × ((p : Bytes) → (write max b p).0 ≡ length p)
captured-eq-take max b ps =
    let same = captured_lem max [] ps (omega arith) in
    (same, rw same (length-take max (concat ps)), write_lem max b)
