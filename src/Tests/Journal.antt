-- ===== src/Tests/Journal.antt =====
-- A run's journal: one round trip of a tool, a redelivered event, and the end of the run.
use durable_agent_execution.Replay.Prefix.{fold_up_to-prefix}
use durable_agent_execution.Replay.Source.{fold_up_to, count_up_to_seq}
use durable_agent_execution.Events.{completed}
use durable_agent_execution.Events.RoundTrip.{
  decode_payload-new_envelope, settle_raw, decode-encode,
}
use durable_agent_execution.Replay.Redelivery.{redelivery}
use durable_agent_execution.Replay.Gapless.{IsGapless, fold-IsGapless}
use native.Mathlib.Decide.{ℕ_discrete}
use durable_agent_execution.Replay.Clone.{
  clone_run_state, clone_steps, clone_step_record, clone_calls, clone_in_flight, clone_tool_call,
  clone_content_blocks, clone_invoked, copy_entries, copy_ids, copy_ptr, copy_failure,
}
use durable_agent_execution.Prelude.Dict.{get, put}
use durable_agent_execution.Replay.Derived.{
  derive_tool_state, derived_calls, derive_loop, derive_one, with_journaled, journaled_for,
  tool_call_from_content, compute_next_action, running_action,
}
use durable_agent_execution.Replay.Transitions.{
  apply_payload, apply_run_started, apply_llm_responded, apply_tool_invoked, apply_tool_resulted,
  result_once, current_step_for, note_invoked, note_result, batch_open, all_resulted,
  all_of_resulted, has_result, decode_prompt, decode_blocks, new_step, tool_use_ids, contains,
}
use durable_agent_execution.Replay.Transitions.{apply_payload}
use durable_agent_execution.Events.Payloads.{decode_payload, unmarshal, payload_members, marshal}
use durable_agent_execution.Events.Codec.{new_envelope, TimeText, encode, decode}
use durable_agent_execution.Errors.{Error}
use durable_agent_execution.Json.{
  null, arr, obj, nil, field, str, end, write_raw, write_ptr, read, members, same_name, into_string,
  into_bool, into_int, into_ptr, into_raw, find,
}
use durable_agent_execution.Replay.Fold.{
  fold, fold_from, apply, transition, with_ids, structural_error, finish, is_empty,
  is_terminal_status,
}
use durable_agent_execution.Events.{Envelope, Payload, started, responded, invoked, completed}
use durable_agent_execution.Prelude.Int64.{ℤ, pos, int_dec, lt_int, inc}
use durable_agent_execution.Replay.State.{Block, Sdk, RunState, tool_use, empty_state}
use durable_agent_execution.Prelude.{
  ◌≡◌, refl, none, some, [], ◌∷◌, List, Result, String, ok, err, true, false, str_dec, ℕ, length,
  suc, ap, ◌>>=◌, ◌≤◌, zero, arith, is_ok, ◌++◌,
}

abbrev pub tool_block : Block
tool_block = record { raw_json = null; as_any = tool_use "t" "open_pr" none }

abbrev pub sdk : Sdk
sdk = record { decode_content = λ j. elim j [ arr items ↦ some (tool_block ∷ []) | _ ↦ some [] ] }

abbrev pub event : ℤ → String → Payload → Envelope
event seq id p = new_envelope id "r" "tenant" seq p 7000

abbrev pub start : Envelope
start = event (pos 0) "e0" (
    started (record {
      workload_type = "repo";
      input = some (obj (field "prompt" (str "fix") end));
      max_steps = pos 3;
    }))

abbrev pub answer : Envelope
answer = event (pos 1) "e1" (
    responded (record {
      step = pos 1;
      stop_reason = "tool_use";
      content = some (arr nil);
      is_terminal = false;
    }))

abbrev pub call : Envelope
call = event (pos 2) "e2" (
    invoked (record {
      step = pos 1;
      tool_use_id = "t";
      tool_name = "open_pr";
      tool_args = none;
      idempotency_key = some "idem:r:1:t";
      has_side_effect = true;
    }))

abbrev pub journal : List Envelope
journal = start ∷ answer ∷ call ∷ []

-- The state that the journal folds to, or the empty one.
abbrev pub state_of : List Envelope → RunState
state_of evs = elim (fold sdk evs) [ ok s ↦ s | err e ↦ empty_state ]

abbrev pub rebuilt : RunState
rebuilt = state_of journal

pub folds :
    (x : Result Error RunState)
    → is_ok x ≡ true
    → x ≡ ok (elim x [ ok s ↦ s | err e ↦ empty_state ])
folds (ok s) h = refl
folds (err e) h = absurd (cc h)

pub journal_folds : fold sdk journal ≡ ok rebuilt
unfolding fold fold_from apply transition with_ids structural_error finish is_empty
    is_terminal_status decode_payload unmarshal payload_members marshal new_envelope write_raw
    write_ptr read members same_name into_string into_bool into_int into_ptr into_raw find
    apply_payload apply_run_started apply_llm_responded apply_tool_invoked apply_tool_resulted
    result_once current_step_for note_invoked note_result batch_open all_resulted all_of_resulted
    has_result decode_prompt decode_blocks new_step tool_use_ids contains derive_tool_state
    derived_calls derive_loop derive_one with_journaled journaled_for tool_call_from_content
    compute_next_action running_action get put int_dec str_dec lt_int inc clone_run_state
    clone_steps clone_step_record clone_calls clone_in_flight clone_tool_call clone_content_blocks
    clone_invoked copy_entries copy_ids copy_ptr copy_failure ℕ_discrete
journal_folds = folds (fold sdk journal) refl

fold-IsGapless_example : IsGapless rebuilt × (length rebuilt.seen ≤ length journal)
fold-IsGapless_example = fold-IsGapless sdk journal rebuilt (omega arith) journal_folds

start_within : lt_int (pos 1) start.sequence_number ≡ false
unfolding lt_int new_envelope
start_within = refl

fold_up_to-prefix_example :
    (t : RunState) × (xs : List Envelope) × (ys : List Envelope) × (fold_up_to sdk journal (pos 1)
      ≡ ok t)
    × (fold sdk xs ≡ ok t)
    × (xs ++ ys ≡ journal)
    × (length xs ≡ count_up_to_seq journal (pos 1))
fold_up_to-prefix_example =
    fold_up_to-prefix sdk start (answer ∷ call ∷ []) rebuilt (pos 1) journal_folds start_within

redelivery_example :
    fold sdk (start ∷ answer ∷ call ∷ answer ∷ []) ≡ fold sdk (start ∷ answer ∷ call ∷ [])
redelivery_example = redelivery sdk (start ∷ []) (call ∷ []) [] answer

-- A time by as many marks.
unfoldable pub marks : ℕ → String
marks zero = String.[]
marks (suc n) = String.◌∷◌ "x" (marks n)

unfoldable pub count_marks : String → ℕ
count_marks String.[] = 0
count_marks (String.◌∷◌ c s) = suc (count_marks s)

pub count_marks-marks : (n : ℕ) → count_marks (marks n) ≡ n
unfolding count_marks marks
count_marks-marks zero = refl
count_marks-marks (suc n) = ap suc (count_marks-marks n)

abbrev pub time_text : TimeText
time_text = record {
  format = marks;
  parse = λ s. some (count_marks s);
  parse-format = λ t early. ap some (count_marks-marks t);
}

decode-encode_example :
    (encode time_text start >>= decode time_text)
    ≡ ok (record start { payload = settle_raw start.payload })
unfolding new_envelope
decode-encode_example = decode-encode time_text start refl refl (omega arith)

decode_payload-new_envelope_example :
    decode_payload (
      new_envelope "e" "r" "tenant"
        (pos 1)
        (completed (record { final_output = "done"; total_steps = pos 1 }))
        5)
    ≡ ok (completed (record { final_output = "done"; total_steps = pos 1 }))
decode_payload-new_envelope_example =
    decode_payload-new_envelope "e" "r" "tenant" (pos 1)
      (completed (record { final_output = "done"; total_steps = pos 1 })) 5 refl
