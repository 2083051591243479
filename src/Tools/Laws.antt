-- ===== src/Tools/Laws.antt =====
-- Every answer of the dispatcher is a valid response (local-agent/internal/tools/dispatcher.go).
use on_code.Prelude.{
  is_empty, ℕ, ◌≡◌, refl, sym, ap, inl, inr, Bool, not, true, Option, none, some, [], ◌∷◌, ◌++◌,
  Bytes, String, ok, ensure, >>=-eq-ok, Option-cases, Result-cases, bytes_eq, Bool-cases,
}
use mathlib.Core.Path.{◌∙◌, subst}
use on_code.Protocol.Errors
use on_code.Protocol.Errors.{Error, Code}
use on_code.Protocol.Ids.Kinds
use on_code.Protocol.Messages.{
  ToolRequest, ToolResponse, no_tool, validate_request, validate_response, check_id, check_error,
}
use on_code.Protocol.Errors.Laws.{Describes, new-Describes}
use on_code.Tools.{
  or_internal, code_of, ToolEvent, GoError, protocol_error, plain_error, Outcome, Handler, Registry,
  get, event, State, failed_response, map_error, settle, run, route, dispatch, with_metrics,
}

abbrev IsFairError : GoError → Type 0
IsFairError (protocol_error e) = Errors.known e.code ≡ true
IsFairError (plain_error msg) = Unit

abbrev IsFairReply : Option ToolResponse → Type 0
IsFairReply none = Unit
IsFairReply (some r) = validate_response r ≡ ok tt

abbrev FairOutcome : Option GoError → Option ToolResponse → Type 0
FairOutcome (some e) r = IsFairError e
FairOutcome none r = IsFairReply r

-- What a handler owes for one outcome: a protocol error that it returns has a known code, and a
-- response that it returns with no error is valid.
abbrev pub IsFair : Outcome → Type 0
IsFair out = FairOutcome out.failure out.response

check_made :
    (o : Option Error) (code : Code) (msg : String)
    → Describes code o
    → Errors.known code ≡ true
    → check_error (or_internal o msg) ≡ ok tt
check_made none code msg d k = absurd (cc (d, k))
check_made (some e) code msg d k = rw (d.1, k)

pub failed_response-valid :
    (call : Bytes) (code : Code) (msg : String)
    → check_id Kinds.call call ≡ ok tt
    → Errors.known code ≡ true
    → validate_response (failed_response call code msg) ≡ ok tt
unfolding validate_response failed_response
failed_response-valid call code msg h k =
    rw h (check_made (Errors.new code msg) code msg (new-Describes code msg) k)

internal_known : Errors.known Errors.internal_error ≡ true
unfolding Errors.known Errors.catalog
internal_known = refl

invalid_known : Errors.known Errors.invalid_request ≡ true
unfolding Errors.known Errors.catalog
invalid_known = refl

unsupported_known : Errors.known Errors.tool_not_supported ≡ true
unfolding Errors.known Errors.catalog
unsupported_known = refl

-- validation keeps the call and the tool
validate_request-keeps :
    (req valid : ToolRequest)
    → validate_request req ≡ ok valid
    → (req.call_id ≡ valid.call_id) × (req.tool ≡ valid.tool)
unfolding validate_request
validate_request-keeps req valid e =
    let (_, _, rest) = >>=-eq-ok (check_id Kinds.call req.call_id) _ e in
    let (_, _, made) = >>=-eq-ok (ensure (not (is_empty req.tool)) no_tool) _ rest in
    (cc made, cc made)

map_error-valid :
    (call : Bytes) (e : GoError)
    → check_id Kinds.call call ≡ ok tt
    → IsFairError e
    → validate_response (map_error call e) ≡ ok tt
unfolding map_error
map_error-valid call (protocol_error e) h f = unfold validate_response in rw (h, f)
map_error-valid call (plain_error msg) h f =
    failed_response-valid call Errors.internal_error msg h internal_known

settle-valid :
    (call : Bytes) (f : Option GoError) (r : Option ToolResponse)
    → check_id Kinds.call call ≡ ok tt
    → FairOutcome f r
    → validate_response (settle call (record { response = r; failure = f })) ≡ ok tt
unfolding settle
settle-valid call (some e) r h f = map_error-valid call e h f
settle-valid call none (some r) h f = f
settle-valid call none none h f =
    failed_response-valid call Errors.internal_error "handler returned nil response" h
      internal_known

with_metrics-valid :
    (r : ToolResponse) (ms : ℕ) → validate_response (with_metrics r ms) ≡ validate_response r
unfolding validate_response
with_metrics-valid r ms = refl

-- A handler is fair in every state for each call with a valid identifier, and so is every one of a registry.
abbrev pub IsFairHandler : (W : Type 0) → Handler W → Type 0
IsFairHandler W h =
    (req : ToolRequest) (w : W) → check_id Kinds.call req.call_id ≡ ok tt → IsFair (h req w).0

abbrev pub IsFairRegistry : (W : Type 0) → Registry W → Type 0
IsFairRegistry W [] = Unit
IsFairRegistry W ((n, h) ∷ r) = IsFairHandler W h × IsFairRegistry W r

-- the code of an error, and none where there is no error
abbrev pub IsCodeOf : Option Error → Option Code → Type 0
IsCodeOf none c = c ≡ none
IsCodeOf (some x) c = c ≡ some x.code

-- What a line of the log tells of a call and of its answer.
pub record Tells (req : ToolRequest) (resp : ToolResponse) (ms : ℕ) (e : ToolEvent) : Type 0 where
  pub told_call : e.event_call ≡ req.call_id
  pub told_tool : e.event_tool ≡ req.tool
  pub told_status : e.event_status ≡ resp.status
  pub told_ms : e.event_ms ≡ ms
  pub told_error : IsCodeOf resp.error e.event_error

code_of-IsCodeOf : (o : Option Error) → IsCodeOf o (code_of o)
code_of-IsCodeOf none = refl
code_of-IsCodeOf (some e) = refl

event-Tells :
    (req : ToolRequest) (resp : ToolResponse) (ms : ℕ) → Tells req resp ms (event req resp ms)
event-Tells req resp ms = record {
  told_call = refl;
  told_tool = refl;
  told_status = refl;
  told_ms = refl;
  told_error = code_of-IsCodeOf resp.error;
}

event-same :
    (a b : ToolRequest) (resp : ToolResponse) (ms : ℕ)
    → a.call_id ≡ b.call_id
    → a.tool ≡ b.tool
    → event a resp ms ≡ event b resp ms
event-same a b resp ms p q = cc

module _ {W : Type 0} where
  get-IsFair :
      (reg : Registry W) (name : Bytes) (h : Handler W)
      → IsFairRegistry W reg
      → get name reg ≡ some h
      → IsFairHandler W h
  unfolding get
  get-IsFair [] name h f e = absurd (cc e)
  get-IsFair ((n, g) ∷ r) name h f e = elim (Bool-cases (bytes_eq n name)) [
    | inl same ↦
        let p : some g ≡ some h = rw (same, get) at e in
        let q : g ≡ h = cc p in subst (λ (k : Handler W). IsFairHandler W k) q f.0
    | inr other ↦ get-IsFair r name h f.1 (rw (other, get) at e)
  ]

  run-valid :
      (audited : Bool) (ms : ℕ) (req : ToolRequest) (h : Handler W) (s : State W)
      → check_id Kinds.call req.call_id ≡ ok tt
      → IsFair (h req s.world).0
      → validate_response (run audited ms req h s).0 ≡ ok tt
  unfolding run
  run-valid audited ms req h s v f =
      let out = (h req s.world).0 in
      with_metrics-valid (settle req.call_id out) ms
      ∙ settle-valid req.call_id out.failure out.response v f

  route-valid :
      (reg : Registry W) (audited : Bool) (ms : ℕ) (req : ToolRequest) (s : State W)
      → check_id Kinds.call req.call_id ≡ ok tt
      → IsFairRegistry W reg
      → validate_response (route reg audited ms req s).0 ≡ ok tt
  unfolding route
  route-valid reg audited ms req s v f = elim (Option-cases (get req.tool reg)) [
    | inl missing ↦
        rw (missing, route)
          (failed_response-valid req.call_id Errors.tool_not_supported _ v unsupported_known)
    | inr found ↦
        rw (found.1, route)
          (run-valid audited ms req found.0 s v
            (get-IsFair reg req.tool found.0 f found.1 req s.world v))
  ]

  -- A request whose call has a valid identifier is answered by a valid response, whatever the tool
  -- is, found or not, and whether its handler returns a response, an error or nothing; the handlers
  -- return valid responses and protocol errors of known codes for such a call.
  pub dispatch-valid :
      (reg : Registry W) (audited : Bool) (ms : ℕ) (req : ToolRequest) (s : State W)
      → check_id Kinds.call req.call_id ≡ ok tt
      → IsFairRegistry W reg
      → validate_response (dispatch reg audited ms (some req) s).0 ≡ ok tt
  unfolding dispatch
  dispatch-valid reg audited ms req s v f = elim (Result-cases (validate_request req)) [
    | inl good ↦
        rw (good.1, dispatch)
          (route-valid reg audited ms good.0 s
            (rw (validate_request-keeps req good.0 good.1).0 at v) f)
    | inr bad ↦
        rw (bad.1, dispatch)
          (failed_response-valid req.call_id Errors.invalid_request _ v invalid_known)
  ]

  route-logs :
      (reg : Registry W) (ms : ℕ) (req : ToolRequest) (s : State W)
      → (route reg true ms req s).1.events
        ≡ s.events ++ event req (route reg true ms req s).0 ms ∷ []
  unfolding route
  route-logs reg ms req s = elim (Option-cases (get req.tool reg)) [
    | inl missing ↦ rw (missing, route) refl
    | inr found ↦ rw (found.1, route) refl
  ]

  dispatch_event :
      (reg : Registry W) (ms : ℕ) (req : ToolRequest) (s : State W)
      → (dispatch reg true ms (some req) s).1.events
        ≡ s.events ++ event req (dispatch reg true ms (some req) s).0 ms ∷ []
  unfolding dispatch
  dispatch_event reg ms req s = elim (Result-cases (validate_request req)) [
    | inr bad ↦ rw (bad.1, dispatch) refl
    | inl good ↦
        let (same_call, same_tool) = validate_request-keeps req good.0 good.1 in
        rw (good.1, dispatch)
          (route-logs reg ms good.0 s
            ∙ ap (λ e. s.events ++ e ∷ [])
                (event-same good.0 req (route reg true ms good.0 s).0 ms (sym same_call)
                  (sym same_tool)))
  ]

  -- A request that is not nil is logged exactly once, with its call and its tool, the status of the answer
  -- that is returned, the time that it took, and the code of the error in the answer, if there is one.
  pub dispatch-logs :
      (reg : Registry W) (ms : ℕ) (req : ToolRequest) (s : State W)
      → (e : ToolEvent) × ((dispatch reg true ms (some req) s).1.events ≡ s.events ++ e ∷ [])
        × Tells req (dispatch reg true ms (some req) s).0 ms e
  dispatch-logs reg ms req s =
      let resp = (dispatch reg true ms (some req) s).0 in
      (event req resp ms, dispatch_event reg ms req s, event-Tells req resp ms)
