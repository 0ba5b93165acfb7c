-- ===== src/Replay/Actions.antt =====
-- What NextAction promises a worker (computeNextAction of internal/replay/fold.go): each action is
-- computed exactly in the states in which it makes sense.
use durable_agent_execution.Prelude.Int64.{lt_int}
use durable_agent_execution.Replay.Induction.{fold_keeps}
use durable_agent_execution.Replay.Outcomes.{transition-eq-ok}
use durable_agent_execution.Replay.Calls.{
  AreCalls, derive_loop_sound, IsPending, IsInFlight, derive_loop_complete,
}
use durable_agent_execution.Replay.Steps.{AreSteps, IsDone, IsStep, fold-AreSteps}
use durable_agent_execution.Events.{Envelope}
use durable_agent_execution.Replay.Derived.{
  derived_calls, derive_tool_state, compute_next_action, running_action, derive_loop,
}
use durable_agent_execution.Replay.Fold.{finish, transition, fold}
use durable_agent_execution.Replay.State.{
  RunState, Sdk, RunStatus, StepRecord, NextAction, empty_state, ToolCall,
}
use durable_agent_execution.Prelude.{
  ◌≡◌, refl, [], ◌∷◌, none, some, List, Bool, true, get_last?, ok, false, ◌⊎◌, is_nil, subst, sym,
  All-get_last?, Bool-cases, Option-cases, ap, ◌∙◌, inr, inl, arith, All,
}

-- The derived fields of a state are those that its steps and its status give.
pub record IsDerived (s : RunState) : Type 0 where
  pub calls : derived_calls s.steps ≡ (s.pending_tool_calls, s.in_flight_tool)
  pub action : s.next_action ≡ compute_next_action s

finish-IsDerived : (mid : RunState) (e : Envelope) → IsDerived (finish mid e)
unfolding finish derive_tool_state compute_next_action running_action
finish-IsDerived mid e = record { calls = refl; action = refl }

transition-IsDerived :
    (sdk : Sdk) (s : RunState) (e : Envelope) (next : RunState)
    → transition sdk s e ≡ ok next
    → IsDerived next
transition-IsDerived sdk s e next h =
    let (payload, mid, decoded, step, last) = transition-eq-ok sdk s e h in
    subst IsDerived (sym last) (finish-IsDerived mid e)

pub fold-IsDerived :
    (sdk : Sdk) (evs : List Envelope) (s : RunState) → fold sdk evs ≡ ok s → IsDerived s
fold-IsDerived sdk evs s =
    fold_keeps sdk IsDerived (λ e next check step. transition-IsDerived sdk empty_state e next step)
      (λ t e next d check step. transition-IsDerived sdk t e next step) s evs

-- The run is neither at its end nor waiting for an approval.
abbrev pub is_live : RunStatus → Bool
is_live RunStatus.unset = true
is_live RunStatus.running = true
is_live _ = false

-- The last step, with its batch done and more to come.
pub record IsTurnOver (s : RunState) : Type 0 where
  pub last : StepRecord
  pub is_last : get_last? s.steps ≡ some last
  pub done : IsDone last
  pub used_tools : is_nil last.order ≡ false
  pub goes_on : last.is_terminal ≡ false

-- What a state with each action is like.
abbrev pub Warrants : RunState → NextAction → Type 0
Warrants s NextAction.unset = ⊥
Warrants s NextAction.call_llm =
    (is_live s.status ≡ true)
    × ((get_last? s.steps ≡ none) ⊎ (IsTurnOver s × (lt_int s.current_step s.max_steps ≡ true)))
Warrants s NextAction.execute_tool =
    (is_live s.status ≡ true)
    × ((last : StepRecord) × (call : ToolCall) × (rest : List ToolCall) × (get_last? s.steps
          ≡ some last)
        × (s.pending_tool_calls ≡ call ∷ rest)
        × (s.in_flight_tool ≡ none)
        × IsPending last call)
Warrants s NextAction.resolve_in_flight_tool =
    (is_live s.status ≡ true)
    × ((last : StepRecord) × (call : ToolCall) × (get_last? s.steps ≡ some last)
        × (s.in_flight_tool ≡ some call)
        × IsInFlight last call)
Warrants s NextAction.finish_run =
    (is_live s.status ≡ true)
    × ((last : StepRecord) × (get_last? s.steps ≡ some last)
        × (s.in_flight_tool ≡ none)
        × ((last.is_terminal ≡ true) ⊎ (is_nil last.order ≡ true)))
Warrants s NextAction.fail_max_steps =
    (is_live s.status ≡ true) × IsTurnOver s × (lt_int s.current_step s.max_steps ≡ false)
Warrants s NextAction.nothing = is_live s.status ≡ false

module _ (s : RunState) (a : AreSteps s.steps) (d : IsDerived s) where
  calls_of :
      (last : StepRecord)
      → get_last? s.steps ≡ some last
      → derive_loop last last.order ([], none) ≡ (s.pending_tool_calls, s.in_flight_tool)
  unfolding derived_calls
  calls_of last h = rw (h, derived_calls) at d.calls

  are_calls :
      (last : StepRecord)
      → get_last? s.steps ≡ some last
      → AreCalls last (s.pending_tool_calls, s.in_flight_tool)
  are_calls last h =
      subst (AreCalls last) (calls_of last h)
        (derive_loop_sound last (All-get_last? IsStep s.steps last h a.each))

  -- With nothing pending and nothing in flight the batch is done.
  drained_batch :
      (last : StepRecord)
      → get_last? s.steps ≡ some last
      → is_nil s.pending_tool_calls ≡ true
      → s.in_flight_tool ≡ none
      → IsDone last
  drained_batch last l p f =
      derive_loop_complete last (All-get_last? IsStep s.steps last l a.each)
        (calls_of last l ∙ λ i. (nil_of_is_nil s.pending_tool_calls p i, f i))
    where
      nil_of_is_nil : (cs : List ToolCall) → is_nil cs ≡ true → cs ≡ []
      nil_of_is_nil [] h = refl
      nil_of_is_nil (c ∷ cs) h = cc

  module _ (live : is_live s.status ≡ true) where
    at : (x : NextAction) → running_action s ≡ x → Warrants s x → Warrants s (running_action s)
    at x e w = subst (Warrants s) (sym e) w

    idle_warrants :
        (last : StepRecord)
        → get_last? s.steps ≡ some last
        → s.in_flight_tool ≡ none
        → last.is_terminal ≡ false
        → Warrants s (running_action s)
    unfolding running_action
    idle_warrants last l f t = elim (Bool-cases (is_nil s.pending_tool_calls)) [
      | inr more ↦
          let (c, cs, e) = cons_of s.pending_tool_calls more in
          at NextAction.execute_tool (ground arith) (
            live,
            (last, c, cs, l, e, f, (subst (All (IsPending last)) e (are_calls last l).pending).0),
          )
      | inl drained ↦ elim (Bool-cases (is_nil last.order)) [
        | inl no_tools ↦ at NextAction.finish_run (ground arith) (live, (last, l, f, inr no_tools))
        | inr tools ↦
            let turn : IsTurnOver s = record {
              last = last;
              is_last = l;
              done = drained_batch last l drained f;
              used_tools = tools;
              goes_on = t;
            } in
            elim (Bool-cases (lt_int s.current_step s.max_steps)) [
              | inl room ↦ at NextAction.call_llm (ground arith) (live, inr (turn, room))
              | inr full ↦ at NextAction.fail_max_steps (ground arith) (live, turn, full)
            ]
      ]
    ]
      where
        cons_of :
            (cs : List ToolCall)
            → is_nil cs ≡ false
            → (c : ToolCall) × (rest : List ToolCall) × (cs ≡ c ∷ rest)
        cons_of [] h = absurd (cc h)
        cons_of (c ∷ cs) h = (c, cs, refl)

    running_warrants : Warrants s (running_action s)
    unfolding running_action
    running_warrants = elim (Option-cases (get_last? s.steps)) [
      | inl start ↦ at NextAction.call_llm (ground arith) (live, inl start)
      | inr (last, l) ↦ elim (Option-cases s.in_flight_tool) [
        | inr (call, f) ↦
            at NextAction.resolve_in_flight_tool (ground arith)
              (live, (last, call, l, f, (are_calls last l).flight call f))
        | inl f ↦ elim (Bool-cases last.is_terminal) [
          | inl t ↦ at NextAction.finish_run (ground arith) (live, (last, l, f, inl t))
          | inr t ↦ idle_warrants last l f t
        ]
      ]
    ]

  by_status : (t : RunStatus) → s.status ≡ t → Warrants s (compute_next_action s)
  unfolding compute_next_action
  by_status RunStatus.unset e = subst (Warrants s) (ground arith) (running_warrants (ap is_live e))
  by_status RunStatus.running e =
      subst (Warrants s) (ground arith) (running_warrants (ap is_live e))
  by_status RunStatus.completed e =
      subst (Warrants s) {x = NextAction.nothing} (ground arith) (ap is_live e)
  by_status RunStatus.failed e =
      subst (Warrants s) {x = NextAction.nothing} (ground arith) (ap is_live e)
  by_status RunStatus.cancelled e =
      subst (Warrants s) {x = NextAction.nothing} (ground arith) (ap is_live e)
  by_status RunStatus.awaiting_approval e =
      subst (Warrants s) {x = NextAction.nothing} (ground arith) (ap is_live e)

  pub next_action_warrants : Warrants s s.next_action
  next_action_warrants = subst (Warrants s) (sym d.action) (by_status s.status refl)

pub fold-Warrants :
    (sdk : Sdk) (evs : List Envelope) (s : RunState)
    → fold sdk evs ≡ ok s
    → Warrants s s.next_action
fold-Warrants sdk evs s h =
    next_action_warrants s (fold-AreSteps sdk evs s h) (fold-IsDerived sdk evs s h)
