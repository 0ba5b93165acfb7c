-- ===== src/Replay/Clone.antt =====
-- The copies of internal/replay/state.go (cloneRunState and its helpers). Values of the model share
-- no memory, so that a copy is equal to what it copies is all there is to state.
use durable_agent_execution.Prelude.{
  arith, ◌≡◌, refl, ap, String, Option, none, some, List, [], ◌∷◌,
}
use durable_agent_execution.Replay.State.{Block, ToolCall, Journaled, StepRecord, RunState}
use durable_agent_execution.Events.{RunFailedPayload}

unfoldable pub copy_ptr : Option String → Option String
copy_ptr none = none
copy_ptr (some s) = some s

unfoldable pub copy_failure : Option RunFailedPayload → Option RunFailedPayload
copy_failure none = none
copy_failure (some f) = some f

unfoldable pub clone_tool_call : ToolCall → ToolCall
unfolding copy_ptr
clone_tool_call tc = record tc { idempotency_key = copy_ptr tc.idempotency_key }

unfoldable pub clone_content_blocks : List Block → List Block
clone_content_blocks [] = []
clone_content_blocks (b ∷ bs) =
    record { raw_json = b.raw_json; as_any = b.as_any } ∷ clone_content_blocks bs

unfoldable pub clone_invoked : List (String × Journaled) → List (String × Journaled)
clone_invoked [] = []
clone_invoked ((k, v) ∷ m) =
    (k, record v { idempotency_key = copy_ptr v.idempotency_key }) ∷ clone_invoked m

unfoldable pub copy_entries : {K V : Type 0} → List (K × V) → List (K × V)
copy_entries [] = []
copy_entries ((k, v) ∷ m) = (k, v) ∷ copy_entries m

unfoldable pub copy_ids : List String → List String
copy_ids [] = []
copy_ids (s ∷ ss) = s ∷ copy_ids ss

unfoldable pub clone_step_record : StepRecord → StepRecord
clone_step_record s = record {
  content = clone_content_blocks s.content;
  is_terminal = s.is_terminal;
  stop_reason = s.stop_reason;
  invoked = clone_invoked s.invoked;
  order = copy_ids s.order;
  invoked_order = copy_ids s.invoked_order;
  results = copy_entries s.results;
}

unfoldable pub clone_in_flight : Option ToolCall → Option ToolCall
clone_in_flight none = none
clone_in_flight (some tc) = some (clone_tool_call tc)

unfoldable pub clone_calls : List ToolCall → List ToolCall
clone_calls [] = []
clone_calls (tc ∷ tcs) = clone_tool_call tc ∷ clone_calls tcs

unfoldable pub clone_steps : List StepRecord → List StepRecord
clone_steps [] = []
clone_steps (s ∷ ss) = clone_step_record s ∷ clone_steps ss

unfoldable pub clone_run_state : RunState → RunState
unfolding clone_tool_call clone_step_record clone_calls clone_in_flight copy_failure clone_steps
    copy_entries
clone_run_state s = record s {
  pending_tool_calls = clone_calls s.pending_tool_calls;
  in_flight_tool = clone_in_flight s.in_flight_tool;
  failure = copy_failure s.failure;
  steps = clone_steps s.steps;
  seen = copy_entries s.seen;
}

copy_ptr-id : (o : Option String) → copy_ptr o ≡ o
unfolding copy_ptr
copy_ptr-id none = refl
copy_ptr-id (some s) = refl

clone_tool_call-id : (tc : ToolCall) → clone_tool_call tc ≡ tc
unfolding clone_tool_call
clone_tool_call-id tc = ground (arith, copy_ptr-id tc.idempotency_key)

clone_content_blocks-id : (bs : List Block) → clone_content_blocks bs ≡ bs
unfolding clone_content_blocks
clone_content_blocks-id [] = refl
clone_content_blocks-id (b ∷ bs) = ap (◌∷◌ b) (clone_content_blocks-id bs)

clone_invoked-id : (m : List (String × Journaled)) → clone_invoked m ≡ m
unfolding clone_invoked
clone_invoked-id [] = refl
clone_invoked-id ((k, v) ∷ m) = ground (arith, copy_ptr-id v.idempotency_key, clone_invoked-id m)

copy_entries-id : {K V : Type 0} (m : List (K × V)) → copy_entries m ≡ m
unfolding copy_entries
copy_entries-id [] = refl
copy_entries-id ((k, v) ∷ m) = ap (◌∷◌ (k, v)) (copy_entries-id m)

copy_ids-id : (ss : List String) → copy_ids ss ≡ ss
unfolding copy_ids
copy_ids-id [] = refl
copy_ids-id (s ∷ ss) = ap (◌∷◌ s) (copy_ids-id ss)

clone_step_record-id : (s : StepRecord) → clone_step_record s ≡ s
unfolding clone_step_record
clone_step_record-id s =
    simp (clone_content_blocks-id, clone_invoked-id, copy_entries-id, copy_ids-id)

clone_in_flight-id : (o : Option ToolCall) → clone_in_flight o ≡ o
unfolding clone_in_flight
clone_in_flight-id none = refl
clone_in_flight-id (some tc) = ap some (clone_tool_call-id tc)

clone_calls-id : (tcs : List ToolCall) → clone_calls tcs ≡ tcs
unfolding clone_calls
clone_calls-id [] = refl
clone_calls-id (tc ∷ tcs) = cc (clone_tool_call-id tc, clone_calls-id tcs)

clone_steps-id : (ss : List StepRecord) → clone_steps ss ≡ ss
unfolding clone_steps
clone_steps-id [] = refl
clone_steps-id (s ∷ ss) = cc (clone_step_record-id s, clone_steps-id ss)

copy_failure-id : (o : Option RunFailedPayload) → copy_failure o ≡ o
unfolding copy_failure
copy_failure-id none = refl
copy_failure-id (some f) = refl

-- A clone is equal to what it copies.
pub clone_run_state-id : (s : RunState) → clone_run_state s ≡ s
unfolding clone_run_state
clone_run_state-id s =
    simp (clone_calls-id, clone_in_flight-id, copy_failure-id, clone_steps-id, copy_entries-id)
