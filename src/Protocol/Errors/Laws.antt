-- ===== src/Protocol/Errors/Laws.antt =====
-- The catalog of error codes and the errors made from it (protocol/errors/errors.go).
use on_code.Prelude.{
  String, ◌≡◌, ◌↔◌, ◌⊎◌, refl, inl, inr, true, false, Option, none, some, arith, Bool-cases,
}
use on_code.Protocol.Errors.{
  Code, other, protocol_version_unsupported, process_timeout, timeout, Error, code_text, Meta,
  catalog, known, category_of, retryable, new,
}
use text.Mathlib.Text.{◌==◌ as str_eq}

retryable→eq : (c : Code) → retryable c ≡ true → (c ≡ process_timeout) ⊎ (c ≡ timeout)
unfolding retryable catalog
retryable→eq protocol_version_unsupported h = cc
retryable→eq process_timeout h = inl refl
retryable→eq timeout h = inr refl
retryable→eq _ h = cc

-- Of all codes exactly PROCESS_TIMEOUT and TIMEOUT are retryable.
pub retryable_iff : (c : Code) → (retryable c ≡ true) ↔ ((c ≡ process_timeout) ⊎ (c ≡ timeout))
unfolding retryable catalog
retryable_iff c = (retryable→eq c, λ h. ground arith)

-- What `New` returns: nothing for an unknown code, and else an error that has the code and the
-- category and retry flag that the catalog gives it.
abbrev pub Describes : Code → Option Error → Type 0
Describes c none = known c ≡ false
Describes c (some e) =
    (known c ≡ true)
    × (e.code ≡ c)
    × (category_of c ≡ some e.category)
    × (retryable c ≡ e.is_retryable)

-- Every result of `New` agrees with the catalog.
pub new-Describes : (c : Code) (message : String) → Describes c (new c message)
unfolding new known category_of retryable catalog
new-Describes protocol_version_unsupported message = (refl, refl, refl, refl)
new-Describes (other s) message = refl
new-Describes _ message = (refl, refl, refl, refl)

code_text-ne-empty : (c : Code) → known c ≡ true → str_eq (code_text c) "" ≡ false
unfolding code_text known catalog
code_text-ne-empty protocol_version_unsupported h = refl
code_text-ne-empty (other s) h = cc
code_text-ne-empty _ h = refl

-- an error is made of a code that the catalog has, and of a text that is chosen by `if`
made :
    (m : Option Meta) (c : Code) (message : String) (e : Error)
    → (known c ≡ true → str_eq (code_text c) "" ≡ false)
    → catalog c ≡ m
    → new c message ≡ some e
    → str_eq e.message "" ≡ false
unfolding new known
made none c message e k p h = absurd (cc (rw (p, new) at h))
made (some m) c message e k p h = elim (Bool-cases (str_eq message "")) [
  | inl empty ↦ ground (arith, empty, rw (p, new) at h, k)
  | inr given ↦ ground (arith, given, rw (p, new) at h)
]

-- The message of an error is never empty, whatever message was given.
pub message-new-ne-empty :
    (c : Code) (message : String) (e : Error) → new c message ≡ some e → str_eq e.message "" ≡ false
message-new-ne-empty c message e = made (catalog c) c message e (code_text-ne-empty c) refl
