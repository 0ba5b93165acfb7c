-- ===== src/Replay/Calls.antt =====
-- The calls that deriveToolState of internal/replay/fold.go lists: which are pending, which is in
-- flight, and that none is missed.
use durable_agent_execution.Prelude.Dict.{get}
use durable_agent_execution.Replay.Steps.{IsStep, IsDone}
use durable_agent_execution.Replay.Transitions.{
  tool_use_ids, contains, has_result, all_resulted, all_of_resulted,
}
use durable_agent_execution.Replay.Derived.{
  tool_call_from_content, journaled_for, with_journaled, derive_one, derive_loop,
}
use durable_agent_execution.Replay.State.{StepRecord, ToolCall, Block}
use durable_agent_execution.Prelude.{
  ◌≡◌, refl, [], ◌∷◌, none, some, List, Option, String, true, All, arith, false, ◌≢◌, Option-cases,
  inl, str_dec, inr, ◌++◌, subst, Bool-cases, All-append, sym, ◌∙◌, ap,
}

-- A tool_use block of the step that has not been invoked.
pub record IsPending (step : StepRecord) (c : ToolCall) : Type 0 where
  pub known : contains step.order c.tool_use_id ≡ true
  pub new : contains step.invoked_order c.tool_use_id ≡ false

-- A tool_use block of the step that was invoked and has no result; it carries what its ToolInvoked
-- journaled.
pub record IsInFlight (step : StepRecord) (c : ToolCall) : Type 0 where
  pub known : contains step.order c.tool_use_id ≡ true
  pub invoked : contains step.invoked_order c.tool_use_id ≡ true
  pub open_call : has_result step c.tool_use_id ≡ false
  pub journaled :
      get str_dec step.invoked c.tool_use_id
      ≡ some (record {
        has_side_effect = c.has_side_effect;
        idempotency_key = c.idempotency_key;
        invoked_at = c.invoked_at;
      })

pub record AreCalls (step : StepRecord) (calls : List ToolCall × Option ToolCall) : Type 0 where
  pub pending : All (IsPending step) calls.0
  pub flight : (c : ToolCall) → calls.1 ≡ some c → IsInFlight step c

tool_use_id-from_content :
    (bs : List Block) (id : String) (tc : ToolCall)
    → tool_call_from_content bs id ≡ some tc
    → tc.tool_use_id ≡ id
unfolding tool_call_from_content
tool_use_id-from_content [] id tc h = cc
tool_use_id-from_content (b ∷ bs) id tc h = ground (arith, tool_use_id-from_content bs id tc)

from_content-ne-none :
    (bs : List Block) (id : String)
    → contains (tool_use_ids bs) id ≡ true
    → tool_call_from_content bs id ≢ none
unfolding tool_call_from_content tool_use_ids contains
from_content-ne-none [] id h n = cc
from_content-ne-none (b ∷ bs) id h n = ground (arith, from_content-ne-none bs id)

module _ (step : StepRecord) (w : IsStep step) (id : String)
    (known : contains step.order id ≡ true) where
  found :
      (tc : ToolCall) × (tool_call_from_content step.content id ≡ some tc) × (tc.tool_use_id ≡ id)
  found = elim (Option-cases (tool_call_from_content step.content id)) [
    | inl missing ↦ absurd (from_content-ne-none step.content id (rw w.order_is at known) missing)
    | inr (tc, e) ↦ (tc, e, tool_use_id-from_content step.content id tc e)
  ]

  journaled_is :
      contains step.invoked_order id ≡ true
      → get str_dec step.invoked id ≡ some (journaled_for step id)
  unfolding journaled_for
  journaled_is h = ground (arith, w.invoked_journaled id)

  with_journaled-IsInFlight :
      (tc : ToolCall)
      → tc.tool_use_id ≡ id
      → contains step.invoked_order id ≡ true
      → has_result step id ≡ false
      → IsInFlight step (with_journaled step tc id)
  unfolding with_journaled
  with_journaled-IsInFlight tc same inv none_yet = record {
    known = rw same known;
    invoked = rw same inv;
    open_call = rw same none_yet;
    journaled = rw same (journaled_is inv);
  }

  -- What one round of the loop does.
  module _ (pending : List ToolCall) (flight : Option ToolCall) where
    derive_one_resulted :
        has_result step id ≡ true → derive_one step id (pending, flight) ≡ (pending, flight)
    unfolding derive_one
    derive_one_resulted h = rw h

    derive_one_new :
        (tc : ToolCall)
        → has_result step id ≡ false
        → tool_call_from_content step.content id ≡ some tc
        → contains step.invoked_order id ≡ false
        → derive_one step id (pending, flight) ≡ (pending ++ tc ∷ [], flight)
    unfolding derive_one
    derive_one_new tc h t c = ground arith

    derive_one_invoked :
        (tc : ToolCall)
        → has_result step id ≡ false
        → tool_call_from_content step.content id ≡ some tc
        → contains step.invoked_order id ≡ true
        → derive_one step id (pending, flight)
          ≡ (pending, elim flight [ none ↦ some (with_journaled step tc id) | some c ↦ some c ])
    unfolding derive_one
    derive_one_invoked tc h t c = ground arith

    derive_one-AreCalls :
        AreCalls step (pending, flight) → AreCalls step (derive_one step id (pending, flight))
    derive_one-AreCalls a = elim (Bool-cases (has_result step id)) [
      | inl done ↦ rw (derive_one_resulted done) a
      | inr open_yet ↦
          let (tc, found_it, same) = found in
          elim (Bool-cases (contains step.invoked_order id)) [
            | inl inv ↦ rw (derive_one_invoked tc open_yet found_it inv) (record {
              pending = a.pending;
              flight = λ c e.
                  first_flight flight a.flight (with_journaled step tc id) c
                    (with_journaled-IsInFlight tc same inv open_yet) e;
            })
            | inr new ↦ rw (derive_one_new tc open_yet found_it new) (record {
              pending =
                  All-append (IsPending step) pending (tc ∷ []) a.pending
                    (record { known = rw same known; new = rw same new }, tt);
              flight = a.flight;
            })
          ]
    ]
      where
        first_flight :
            (f : Option ToolCall)
            → ((c : ToolCall) → f ≡ some c → IsInFlight step c)
            → (tc c : ToolCall) → IsInFlight step tc
            → ◌≡◌ {A = Option ToolCall} (elim f [ none ↦ some tc | some d ↦ some d ]) (some c)
            → IsInFlight step c
        first_flight none old tc c w e =
            let same_call : tc ≡ c = cc in subst (IsInFlight step) same_call w
        first_flight (some d) old tc c w e = old c e

    -- Nothing is listed only if the id has its result and nothing was listed before.
    derive_one-eq-nil :
        derive_one step id (pending, flight) ≡ ([], none)
        → (has_result step id ≡ true) × (pending ≡ []) × (flight ≡ none)
    derive_one-eq-nil h = elim (Bool-cases (has_result step id)) [
      | inl done ↦
          let e = sym (derive_one_resulted done) ∙ h in
          (
            done,
            ap (λ (r : List ToolCall × Option ToolCall). r.0) e,
            ap (λ (r : List ToolCall × Option ToolCall). r.1) e,
          )
      | inr open_yet ↦
          let (tc, found_it, same) = found in
          elim (Bool-cases (contains step.invoked_order id)) [
            | inl inv ↦ absurd (
                no_flight flight tc (
                  ap (λ (r : List ToolCall × Option ToolCall). r.1)
                    (sym (derive_one_invoked tc open_yet found_it inv) ∙ h)))
            | inr new ↦ absurd (
                no_pending pending tc (
                  ap (λ (r : List ToolCall × Option ToolCall). r.0)
                    (sym (derive_one_new tc open_yet found_it new) ∙ h)))
          ]
    ]
      where
        no_flight :
            (f : Option ToolCall) (tc : ToolCall)
            → ◌≡◌ {A = Option ToolCall}
                (elim f [ none ↦ some (with_journaled step tc id) | some d ↦ some d ])
                none
            → ⊥
        no_flight none tc e = cc
        no_flight (some d) tc e = cc

        no_pending : (cs : List ToolCall) (tc : ToolCall) → cs ++ tc ∷ [] ≡ [] → ⊥
        no_pending [] tc e = cc
        no_pending (c ∷ cs) tc e = cc

All-contains :
    (all ids : List String)
    → ((id : String) → contains ids id ≡ true → contains all id ≡ true)
    → All (λ id. contains all id ≡ true) ids
unfolding contains
All-contains all [] h = tt
All-contains all (x ∷ xs) h =
    (h x (ground arith), All-contains all xs (λ id k. h id (ground arith)))

module _ (step : StepRecord) (w : IsStep step) where
  abbrev Known : String → Type 0
  Known id = contains step.order id ≡ true

  derive_loop-AreCalls :
      (ids : List String) (calls : List ToolCall × Option ToolCall)
      → All Known ids
      → AreCalls step calls
      → AreCalls step (derive_loop step ids calls)
  unfolding derive_loop
  derive_loop-AreCalls [] calls k a = a
  derive_loop-AreCalls (id ∷ ids) (pending, flight) k a =
      derive_loop-AreCalls ids (derive_one step id (pending, flight)) k.1
        (derive_one-AreCalls step w id k.0 pending flight a)

  derive_loop-eq-nil :
      (ids : List String) (calls : List ToolCall × Option ToolCall)
      → All Known ids
      → derive_loop step ids calls ≡ ([], none)
      → (all_of_resulted step ids ≡ true) × (calls ≡ ([], none))
  unfolding derive_loop all_of_resulted
  derive_loop-eq-nil [] calls k h = (refl, h)
  derive_loop-eq-nil (id ∷ ids) (pending, flight) k h =
      let (rest, one) = derive_loop-eq-nil ids (derive_one step id (pending, flight)) k.1 h in
      let (done, no_pending, no_flight) = derive_one-eq-nil step w id k.0 pending flight one in
      (rw done rest, λ i. (no_pending i, no_flight i))

  All-Known : All Known step.order
  All-Known = All-contains step.order step.order (λ id h. h)

  -- The calls that are listed are what their fields say.
  pub derive_loop_sound : AreCalls step (derive_loop step step.order ([], none))
  derive_loop_sound =
      derive_loop-AreCalls step.order ([], none) All-Known
        (record { pending = tt; flight = λ c e. absurd (cc e) })

  -- If no call is listed, every call has its result.
  pub derive_loop_complete : derive_loop step step.order ([], none) ≡ ([], none) → IsDone step
  unfolding all_resulted
  derive_loop_complete h = (derive_loop-eq-nil step.order ([], none) All-Known h).0
