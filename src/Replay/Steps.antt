-- ===== src/Replay/Steps.antt =====
-- The steps of a run (stepRecord of internal/replay/state.go) are well formed in every state that
-- the fold accepts.
use durable_agent_execution.Replay.Induction.{fold_keeps}
use durable_agent_execution.Replay.Outcomes.{transition-eq-ok}
use durable_agent_execution.Replay.Derived.{derive_tool_state}
use durable_agent_execution.Replay.Fold.{finish, with_ids, transition, fold}
use durable_agent_execution.Errors.{Error}
use durable_agent_execution.Replay.Inversions.{
  llm_responded-eq-ok, tool_invoked-eq-ok, tool_resulted-eq-ok, run_started-eq-ok,
}
use durable_agent_execution.Events.{
  ToolInvokedPayload, ToolResultedPayload, LlmRespondedPayload, Payload, started, responded,
  invoked, resulted, RunStartedPayload, Envelope,
}
use durable_agent_execution.Prelude.Dict.{get, get-put}
use durable_agent_execution.Replay.Transitions.{
  contains, new_step, tool_use_ids, all_resulted, has_result, note_invoked, note_result, batch_open,
  all_of_resulted, apply_llm_responded, apply_tool_invoked, apply_tool_resulted, apply_payload,
  apply_run_started,
}
use durable_agent_execution.Replay.State.{StepRecord, Block, Sdk, RunState, empty_state}
use durable_agent_execution.Prelude.{
  ◌≡◌, refl, [], ◌∷◌, none, List, String, All, false, true, AllButLast, ◌++◌, str_dec,
  if◌then◌else◌, arith, ℕ, ◌≢◌, ite, ok, get_last?, some, is_nil, set_last, All-append,
  All-set_last, All-get_last?, subst, AllButLast-snoc, AllButLast-set_last, sym, Result,
}

-- No id stands twice.
abbrev pub IsDistinct : List String → Type 0
IsDistinct [] = Unit
IsDistinct (id ∷ ids) = (contains ids id ≡ false) × IsDistinct ids

pub record IsStep (step : StepRecord) : Type 0 where
  pub order_is : step.order ≡ tool_use_ids step.content
  pub invoked_known :
      (id : String) → contains step.invoked_order id ≡ true → contains step.order id ≡ true
  pub invoked_once : IsDistinct step.invoked_order
  pub invoked_journaled :
      (id : String) → contains step.invoked_order id ≡ true → get str_dec step.invoked id ≢ none
  pub result_invoked :
      (id : String) → has_result step id ≡ true → contains step.invoked_order id ≡ true

-- A ToolResulted has come for every tool_use block.
abbrev pub IsDone : StepRecord → Type 0
IsDone step = all_resulted step ≡ true

pub record AreSteps (steps : List StepRecord) : Type 0 where
  pub each : All IsStep steps
  pub closed : AllButLast IsDone steps

pub contains-snoc :
    (ids : List String) (id j : String)
    → contains (ids ++ id ∷ []) j ≡ (if contains ids j then true else ite (str_dec id j) true false)
unfolding contains
contains-snoc [] id j = refl
contains-snoc (k ∷ ids) id j = ground (arith, contains-snoc ids id j)

IsDistinct-snoc :
    (ids : List String) (id : String)
    → contains ids id ≡ false
    → IsDistinct ids
    → IsDistinct (ids ++ id ∷ [])
unfolding contains
IsDistinct-snoc [] id new d = (refl, tt)
IsDistinct-snoc (k ∷ ids) id new d =
    (ground (arith, contains-snoc ids id k), IsDistinct-snoc ids id (ground arith) d.1)

new_step-IsStep : (p : LlmRespondedPayload) (content : List Block) → IsStep (new_step p content)
unfolding new_step contains has_result get
new_step-IsStep p content = record {
  order_is = refl;
  invoked_known = λ id h. cc;
  invoked_once = tt;
  invoked_journaled = λ id h. cc;
  result_invoked = λ id h. cc;
}

module _ (step : StepRecord) (w : IsStep step) where
  note_invoked-IsStep :
      (p : ToolInvokedPayload) (at : ℕ)
      → contains step.order p.tool_use_id ≡ true
      → contains step.invoked_order p.tool_use_id ≡ false
      → IsStep (note_invoked step p at)
  unfolding note_invoked has_result
  note_invoked-IsStep p at known new = record {
    order_is = w.order_is;
    invoked_known = λ id h.
        ground (arith, contains-snoc step.invoked_order p.tool_use_id id, w.invoked_known id);
    invoked_once = IsDistinct-snoc step.invoked_order p.tool_use_id new w.invoked_once;
    invoked_journaled = λ id h n. ground (
      arith,
      contains-snoc step.invoked_order p.tool_use_id id,
      w.invoked_journaled id,
      get-put str_dec step.invoked p.tool_use_id id (record {
        has_side_effect = p.has_side_effect;
        idempotency_key = p.idempotency_key;
        invoked_at = at;
      }),
    );
    result_invoked = λ id h.
        ground (arith, contains-snoc step.invoked_order p.tool_use_id id, w.result_invoked id);
  }

  note_result-IsStep :
      (p : ToolResultedPayload)
      → contains step.invoked_order p.tool_use_id ≡ true
      → IsStep (note_result step p)
  unfolding note_result has_result
  note_result-IsStep p known = record {
    order_is = w.order_is;
    invoked_known = w.invoked_known;
    invoked_once = w.invoked_once;
    invoked_journaled = w.invoked_journaled;
    result_invoked = λ id h.
        ground (arith, w.result_invoked id, get-put str_dec step.results p.tool_use_id id p);
  }

-- Where a new response is taken, the batch of the last step is done.
batch_open-IsDone :
    (steps : List StepRecord) (last : StepRecord)
    → batch_open steps ≡ false
    → get_last? steps ≡ some last
    → IsDone last
unfolding batch_open all_resulted all_of_resulted
batch_open-IsDone steps last h l = ground (arith, nil_done last last.order)
  where
    nil_done :
        (step : StepRecord) (ids : List String)
        → is_nil ids ≡ true
        → all_of_resulted step ids ≡ true
    nil_done step [] n = refl
    nil_done step (x ∷ xs) n = cc

module _ (sdk : Sdk) (s mid : RunState) (a : AreSteps s.steps) where
  responded-AreSteps :
      (p : LlmRespondedPayload) → apply_llm_responded sdk s p ≡ ok mid → AreSteps mid.steps
  responded-AreSteps p h =
      let (content, shut, decoded, result) = llm_responded-eq-ok sdk s mid p h in
      rw result (record {
        each =
            All-append IsStep s.steps (new_step p content ∷ []) a.each
              (new_step-IsStep p content, tt);
        closed =
            AllButLast-snoc IsDone s.steps (new_step p content) a.closed
              (λ y l. batch_open-IsDone s.steps y shut l);
      })

  -- A write to the last step keeps the steps before it.
  set_last-AreSteps : (step : StepRecord) → IsStep step → AreSteps (set_last s.steps step)
  set_last-AreSteps step w = record {
    each = All-set_last IsStep s.steps step w a.each;
    closed = AllButLast-set_last IsDone s.steps step a.closed;
  }

  invoked-AreSteps :
      (p : ToolInvokedPayload) (at : ℕ) → apply_tool_invoked s p at ≡ ok mid → AreSteps mid.steps
  invoked-AreSteps p at h =
      let (step, last, known, new, result) = tool_invoked-eq-ok s mid p at h in
      rw result (
        set_last-AreSteps (note_invoked step p at)
          (note_invoked-IsStep step (All-get_last? IsStep s.steps step last a.each) p at known new))

  resulted-AreSteps :
      (p : ToolResultedPayload) → apply_tool_resulted s p ≡ ok mid → AreSteps mid.steps
  resulted-AreSteps p h =
      let (step, last, known, invoked_before, first, result) = tool_resulted-eq-ok s mid p h in
      rw result (
        set_last-AreSteps (note_result step p) (
          note_result-IsStep step (All-get_last? IsStep s.steps step last a.each) p invoked_before))

  started-AreSteps : (p : RunStartedPayload) → apply_run_started s p ≡ ok mid → AreSteps mid.steps
  started-AreSteps p h = let (prompt, decoded, result) = run_started-eq-ok s mid p h in rw result a

  same_steps :
      {next : RunState}
      → ◌≡◌ {A = Result Error RunState} (ok next) (ok mid)
      → next.steps ≡ s.steps
      → AreSteps mid.steps
  same_steps {next} h e = let steps : mid.steps ≡ s.steps = cc in subst AreSteps (sym steps) a

  apply_payload-AreSteps :
      (p : Payload) (at : ℕ) → apply_payload sdk s p at ≡ ok mid → AreSteps mid.steps
  unfolding apply_payload
  apply_payload-AreSteps (started p) at h = started-AreSteps p h
  apply_payload-AreSteps (responded p) at h = responded-AreSteps p h
  apply_payload-AreSteps (invoked p) at h = invoked-AreSteps p at h
  apply_payload-AreSteps (resulted p) at h = resulted-AreSteps p h
  apply_payload-AreSteps _ at h = same_steps h refl

finish-steps : (mid : RunState) (e : Envelope) → (finish mid e).steps ≡ mid.steps
unfolding finish derive_tool_state
finish-steps mid e = refl

with_ids-steps : (s : RunState) (e : Envelope) → (with_ids s s e).steps ≡ s.steps
unfolding with_ids
with_ids-steps s e = ground arith

transition-AreSteps :
    (sdk : Sdk) (s : RunState) (e : Envelope) (next : RunState)
    → AreSteps s.steps
    → transition sdk s e ≡ ok next
    → AreSteps next.steps
transition-AreSteps sdk s e next a h =
    let (payload, mid, decoded, step, last) = transition-eq-ok sdk s e h in
    rw (last, finish-steps mid e)
      (apply_payload-AreSteps sdk (with_ids s s e) mid (rw (with_ids-steps s e) a) payload
        e.occurred_at step)

pub fold-AreSteps :
    (sdk : Sdk) (evs : List Envelope) (s : RunState) → fold sdk evs ≡ ok s → AreSteps s.steps
fold-AreSteps sdk evs s =
    fold_keeps sdk (λ t. AreSteps t.steps)
      (λ e next check step.
        transition-AreSteps sdk empty_state e next (record { each = tt; closed = tt }) step)
      (λ t e next a check step. transition-AreSteps sdk t e next a step) s evs
