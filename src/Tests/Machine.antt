-- ===== src/Tests/Machine.antt =====
-- A file, Redis and a clock in memory, with open_pr (internal/tools) run on them through the Guard.
use durable_agent_execution.Prelude.{
  ℕ, ◌+◌, ◌≡◌, refl, Option, none, some, inl, inr, [], true, false, Bool, ◌∙◌, subst, arith, ◌*◌,
}
use durable_agent_execution.Prelude.Int64.{pos}
use durable_agent_execution.Json.{Bytes, obj, field, str, end, RawMessage}
use durable_agent_execution.Replay.State.{ToolCall}
use durable_agent_execution.Idempotency.Process.{Process, returned, crashed, left}
use durable_agent_execution.Idempotency.Claims.{GuardConfig, Run}
use durable_agent_execution.Idempotency.Retry.{Runtime}
use durable_agent_execution.Idempotency.Record.{CrashPoint, after_claim, after_resolve}
use durable_agent_execution.Idempotency.Contract.{Later, IsUnseen, View}
use durable_agent_execution.Idempotency.Redis.{Client}
use durable_agent_execution.Idempotency.Redis.Refines.{
  IsRedis, SetSpec, Ticked, stored_of, Keeps, IsAfter, in_milliseconds,
}
use durable_agent_execution.Tools.{Invocation}
use durable_agent_execution.Tools.Host.{Host, whole, content}
use durable_agent_execution.Tools.Written.{File, IsAppending, append_line, scanned}
use durable_agent_execution.Tools.Fenced.{open_pr_run, ledger_view, Elapsed, IsRunning}
use durable_agent_execution.Tests.Fence.{other_token, other_token-fresh}
use durable_agent_execution.Tests.Journal.{time_text}

pub record Machine : Type 0 where
  pub clock : ℕ
  pub deadline : ℕ
  pub value : Option Bytes
  pub file : File

abbrev pub fine : {A : Type 0} → A → Process Machine A
fine a w = returned a w

abbrev pub disk : Host Machine
disk = record {
  text = time_text;
  json_error = "bad JSON";
  fits_buffer = λ line. true;
  ctx_error = fine none;
  make_directory = fine none;
  open_file = fine none;
  write = λ b w. returned whole (record w { file = append_line b w.file });
  sync = fine none;
  close = fine none;
  read_file = λ w. returned (content (scanned w.file)) w;
  now = λ w. returned w.clock w;
  pid = pos 7;
  getenv = λ name. fine "";
  parse_duration = λ s. none;
  wait = λ d w. returned none (record w { clock = w.clock + d });
}

abbrev pub call : Invocation
call = record { run_id = "r"; step = pos 1; tool_use_id = "t"; idempotency_key = some "idem:r:1:t" }

abbrev pub args : RawMessage
args = some (obj (field "title" (str "Fix") (field "body" (str "it") end)))

abbrev pub requested : ToolCall
requested = record {
  tool_use_id = "t";
  tool_name = "open_pr";
  tool_args = args;
  has_side_effect = true;
  idempotency_key = some "idem:r:1:t";
  invoked_at = 0;
}

abbrev pub config : GuardConfig
config = record { tool_timeout = 1000; stale_grace = 1000; ttl = 1000000000000; claimed_by = "w" }

abbrev pub fresh_machine : Machine
fresh_machine = record {
  clock = 5;
  deadline = 0;
  value = none;
  file = record { done = []; torn = [] };
}

abbrev pub target : Run Machine
target =
    open_pr_run (λ m. m.file) (λ m. m.clock) (λ m. m.deadline) (λ m. m.value) disk config call
      requested "idem:r:1:t" "h"

abbrev pub Passes : Machine → Machine → Type 0
Passes =
    Elapsed (λ m. m.file) (λ m. m.clock) (λ m. m.deadline) (λ m. m.value) disk config call requested
      "idem:r:1:t" "h"

abbrev pub view : View Machine
view =
    ledger_view (λ m. m.file) (λ m. m.clock) (λ m. m.deadline) (λ m. m.value) disk config call
      requested "idem:r:1:t" "h"

Passes-trans : (a b d : Machine) → Passes a b → Passes b d → Passes a d
Passes-trans a b d p q = (omega (arith, p.0, q.0), kept p.1 q.1)
  where
    kept :
        Keeps time_text (λ m. m.clock) view.effects (λ m. m.deadline) (λ m. m.value) target a b
        → Keeps time_text (λ m. m.clock) view.effects (λ m. m.deadline) (λ m. m.value) target b d
        → Keeps time_text (λ m. m.clock) view.effects (λ m. m.deadline) (λ m. m.value) target a d
    kept (inl before) (inr gone) = inr (gone.0, omega (arith, gone.1, before.1))
    kept (inr before) (inr gone) = inr (gone.0, omega (arith, before.1, q.0))
    kept (inl before) (inl same) = inl (same.0 ∙ before.0, same.1 ∙ before.1)
    kept (inr gone) (inl same) = inr (same.0 ∙ gone.0, omega (arith, gone.1, q.0))

pub disk-IsAppending : IsAppending (λ m. m.file) Passes disk
disk-IsAppending = record {
  passed_refl = λ w. (omega arith, inl (refl, refl));
  passed_trans = Passes-trans;
  ctx_aside = λ w. (refl, (omega arith, inl (refl, refl)));
  make_directory_aside = λ w. (refl, (omega arith, inl (refl, refl)));
  open_aside = λ w. (refl, (omega arith, inl (refl, refl)));
  sync_aside = λ w. (refl, (omega arith, inl (refl, refl)));
  close_aside = λ w. (refl, (omega arith, inl (refl, refl)));
  read_aside = λ w. (refl, (omega arith, inl (refl, refl)));
  now_aside = λ w. (refl, (omega arith, inl (refl, refl)));
  getenv_aside = λ name w. (refl, (omega arith, inl (refl, refl)));
  wait_aside = λ d w. (refl, (omega arith, inl (refl, refl)));
  read_spec = λ w. refl;
  write_spec = λ b w. refl;
  write_passed = λ b w. (omega arith, inl (refl, refl));
}

abbrev pub swap : Option (Bytes × ℕ) → Machine → Machine
swap none w = w
swap (some (b, seconds)) w = record w { value = some b; deadline = w.clock + seconds * 1000000000 }

abbrev pub set_nx : Option Bytes → Bytes → ℕ → Process Machine (Option Bytes)
set_nx none b life w = returned none (record w { value = some b; deadline = w.clock + life })
set_nx (some old) b life w = returned (some old) w

abbrev pub redis : Client Machine
redis = record {
  set_args = λ key b life w. set_nx w.value b life w;
  get = λ key w. returned w.value w;
  run_script = λ f key w. returned (f w.value).answer (swap (f w.value).sets w);
}

abbrev Answers : Bytes → ℕ → (w : Machine) → Option Bytes → Type 0
Answers b life w o =
    SetSpec time_text (λ m. m.clock) view.effects (λ m. m.deadline) (λ m. m.value) target b
      (in_milliseconds life) w (set_nx o b life w)

abbrev Ticks : Machine → Machine → Type 0
Ticks = Ticked time_text (λ m. m.clock) view.effects (λ m. m.deadline) (λ m. m.value) target

set_nx-Answers :
    (b : Bytes) (life : ℕ) (w : Machine) (o : Option Bytes)
    → w.value ≡ o
    → Answers b life w o × Ticks w (left (set_nx o b life w))
set_nx-Answers b life w none e =
    ((inl e, inl (refl, omega arith)), record { clock_grows = omega arith; same_effects = refl })
set_nx-Answers b life w (some old) e =
    ((e, inl (refl, refl)), record { clock_grows = omega arith; same_effects = refl })

swap-Ticks :
    (o : Option (Bytes × ℕ)) (w : Machine)
    → Ticks w (swap o w)
      × IsAfter time_text
          (λ m. m.clock)
          view.effects
          (λ m. m.deadline)
          (λ m. m.value)
          target
          o
          w
          (swap o w)
swap-Ticks none w = (record { clock_grows = omega arith; same_effects = refl }, inl (refl, refl))
swap-Ticks (some (b, seconds)) w =
    (record { clock_grows = omega arith; same_effects = refl }, inl (refl, omega arith))

pub redis-IsRedis :
    IsRedis time_text (λ m. m.clock) view.effects (λ m. m.deadline) (λ m. m.value) target redis
redis-IsRedis = record {
  set_ticks = λ b life w. (set_nx-Answers b life w w.value refl).1;
  set_spec = λ b life w. (set_nx-Answers b life w w.value refl).0;
  get_ticks = λ w. record { clock_grows = omega arith; same_effects = refl };
  get_keeps = λ w. inl (refl, refl);
  script_ticks = λ f w. (swap-Ticks (f w.value).sets w).0;
  script_spec = λ f w. (w.value, inl refl, refl, (swap-Ticks (f w.value).sets w).1);
}

-- The hook kills the worker between Execute and Resolve, or never.
abbrev pub hook : Bool → CrashPoint → Process Machine (Unit {0})
hook true CrashPoint.after_execute w = crashed w
hook _ p w = returned tt w

abbrev pub worker : Bool → Runtime Machine
worker dies = record {
  now = λ w. returned w.clock w;
  sleep = λ d w. returned tt (record w { clock = w.clock + d });
  ctx_done = fine false;
  new_uuid = λ w. returned (other_token (stored_of time_text w.value)) w;
  crash_at = λ tool p. hook dies p;
}

worker_token-IsUnseen :
    (w : Machine) → IsUnseen view target (other_token (stored_of time_text w.value)) w
worker_token-IsUnseen w rec e same =
    other_token-fresh rec (subst (λ o. rec.claim_token ≡ other_token o) e same)

stays : (w : Machine) → Later view target w w
stays w = record { clock_grows = omega arith; same_effects = refl; same_record = inl (refl, refl) }

hook-Later :
    (dies : Bool) (p : CrashPoint) (w : Machine) → Later view target w (left (hook dies p w))
hook-Later true after_claim w = stays w
hook-Later true CrashPoint.after_execute w = stays w
hook-Later true after_resolve w = stays w
hook-Later false p w = stays w

pub worker-IsRunning :
    (dies : Bool)
    → IsRunning
        (λ m. m.file)
        (λ m. m.clock)
        (λ m. m.deadline)
        (λ m. m.value)
        disk
        config
        call
        requested
        "idem:r:1:t"
        "h"
        (worker dies)
worker-IsRunning dies = record {
  now_later = stays;
  now_reads = λ w. refl;
  sleep_later = λ d w. record {
    clock_grows = omega arith;
    same_effects = refl;
    same_record = inl (refl, refl);
  };
  ctx_later = stays;
  uuid_later = stays;
  uuid_fresh = worker_token-IsUnseen;
  crash_later = λ tool p w. hook-Later dies p w;
}
