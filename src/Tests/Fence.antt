-- ===== src/Tests/Fence.antt =====
-- A store, a clock and a tool in memory, and the Guard of internal/idempotency run on them.
use durable_agent_execution.Json.{RawMessage}
use durable_agent_execution.Idempotency.AtMostOnce.{workers, workers-effects}
use durable_agent_execution.Errors.{claim_lost}
use durable_agent_execution.Prelude.Int64.{pos}
use durable_agent_execution.Idempotency.Retry.{Runtime}
use durable_agent_execution.Idempotency.Record.{
  IdemRecord, CrashPoint, ClaimResult, after_claim, after_resolve,
}
use durable_agent_execution.Idempotency.Claims.{Run, is_claimed}
use durable_agent_execution.Tools.{Tool, Invocation, ReconcileResult}
use durable_agent_execution.Idempotency.Store.{Store}
use durable_agent_execution.Idempotency.Contract.{
  View, IsUnseen, Contract, Written, Later, ClaimSpec, Later→Written, AnswerSpec,
}
use durable_agent_execution.Prelude.{
  ◌≡◌, refl, none, some, ℕ, Option, Bool, str_dec, String, true, ite, ◌+◌, false, suc, not, arith,
  ◌==◌, inl, ◌&&◌, ◌≢◌, subst, ok, ◌∙◌, ◌∷◌, [], ◌≤◌, ap, sym, inr,
}
use durable_agent_execution.Idempotency.Process.{returned, Process, Ran, crashed, raised, left}

-- What one key carries.
pub record World : Type 0 where
  pub clock : ℕ
  pub deadline : ℕ
  pub effects : ℕ
  pub stored : Option IdemRecord

abbrev pub view : View World
view = record {
  clock = λ w. w.clock;
  deadline = λ w. w.deadline;
  effects = λ w. w.effects;
  stored = λ w. w.stored;
}

abbrev pub other_token : Option IdemRecord → String
other_token none = "a"
other_token (some rec) = ite (str_dec rec.claim_token "a") "b" "a"

-- The hook kills the worker between Execute and Resolve, or never.
abbrev hook : Bool → CrashPoint → Process World (Unit {0})
hook true CrashPoint.after_execute w = crashed w
hook _ p w = returned tt w

abbrev pub runtime : Bool → Runtime World
runtime dies = record {
  now = λ w. returned w.clock w;
  sleep = λ d w. returned tt (record w { clock = w.clock + d });
  ctx_done = λ w. returned false w;
  new_uuid = λ w. returned (other_token w.stored) w;
  crash_at = λ tool p. hook dies p;
}

abbrev claim_in : Option IdemRecord → IdemRecord → World → Ran World ClaimResult
claim_in none mine w =
    returned (record { acquired = true; existing = none })
      (record w { stored = some mine; deadline = w.clock + 1000000000000 })
claim_in (some ex) mine w = returned (record { acquired = false; existing = some ex }) w

abbrev swap_if : Bool → IdemRecord → World → Ran World (Unit {0})
swap_if true rec w =
    returned tt (record w { stored = some rec; deadline = w.clock + 1000000000000 })
swap_if false rec w = raised claim_lost w

abbrev is_held_by : String → Option IdemRecord → Bool
is_held_by token none = false
is_held_by token (some cur) = is_claimed cur.state && ite (str_dec cur.claim_token token) true false

abbrev pub memory : Store World
memory = record {
  claim = λ key mine w. claim_in w.stored mine w;
  get_record = λ key w. returned w.stored w;
  resolve = λ key token rec w. swap_if (is_held_by token w.stored) rec w;
  take_over = λ key token rec w. swap_if (is_held_by token w.stored) rec w;
}

abbrev ask_effect : Invocation → RawMessage → Process World ReconcileResult
ask_effect inv args w = returned (record { applied = not (w.effects == 0); result = "opened" }) w

abbrev open_pr : Tool World
open_pr = record {
  name = "open_pr";
  has_side_effect = true;
  execute = λ inv args w.
      returned (record { result = "opened"; error = none; ctx_done = false })
        (record w { effects = suc w.effects });
  reconcile = some ask_effect;
}

abbrev pub input : Run World
input = record {
  cfg = record { tool_timeout = 1000; stale_grace = 1000; ttl = 1000000000000; claimed_by = "w" };
  inv = record {
    run_id = "r";
    step = pos 1;
    tool_use_id = "t";
    idempotency_key = some "idem:r:1:t";
  };
  tc = record {
    tool_use_id = "t";
    tool_name = "open_pr";
    tool_args = none;
    has_side_effect = true;
    idempotency_key = some "idem:r:1:t";
    invoked_at = 0;
  };
  tool = open_pr;
  key = "idem:r:1:t";
  args_hash = "h";
}

abbrev pub new_world : World
new_world = record { clock = 5; deadline = 0; effects = 0; stored = none }

letters : ◌≢◌ {A = String} "a" "b"
unfolding str_dec
letters e = absurd (differ (ap (λ s. ite (str_dec s "a") true false) e))
  where
    differ : true ≢ false
    differ h = absurd (cc h)

pub other_token-fresh : (rec : IdemRecord) → rec.claim_token ≢ other_token (some rec)
other_token-fresh rec = fresh (str_dec rec.claim_token "a")
  where
    fresh : (d : Dec (rec.claim_token ≡ "a")) → rec.claim_token ≢ ite d "b" "a"
    fresh (yes p) e = absurd (letters (sym p ∙ e))
    fresh (no n) e = absurd (n e)

other_token-IsUnseen : (w : World) → IsUnseen view input (other_token w.stored) w
other_token-IsUnseen w rec e same =
    other_token-fresh rec (subst (λ o. rec.claim_token ≡ other_token o) e same)

stays : (w : World) → Later view input w w
stays w = record { clock_grows = omega arith; same_effects = refl; same_record = inl (refl, refl) }

swap_if-Written :
    (b : Bool) (rec : IdemRecord) (w : World) → Written view input w (left (swap_if b rec w))
swap_if-Written true rec w = record {
  clock_grows = omega arith;
  same_effects = refl;
  still_there = λ gone. absurd (cc gone);
  lives = λ _. inr (omega arith);
}
swap_if-Written false rec w = Later→Written view input (stays w)

hook-Later : (dies : Bool) (p : CrashPoint) (w : World) → Later view input w (left (hook dies p w))
hook-Later true after_claim w = stays w
hook-Later true CrashPoint.after_execute w = stays w
hook-Later true after_resolve w = stays w
hook-Later false p w = stays w

claim_in-ClaimSpec :
    (mine : IdemRecord) (w : World) (o : Option IdemRecord)
    → w.stored ≡ o
    → ClaimSpec view input mine w (claim_in o mine w)
claim_in-ClaimSpec mine w none e = (
  record {
    clock_grows = omega arith;
    same_effects = refl;
    still_there = λ gone. absurd (cc gone);
    lives = λ _. inr (omega arith);
  },
  λ _. (inl e, inl (λ gone. absurd (cc gone))),
  λ refused. absurd (cc refused),
)
claim_in-ClaimSpec mine w (some cur) e =
    (Later→Written view input (stays w), λ acquired. absurd (cc acquired), λ _ ex there. e ∙ there)

zero_effects : (n : ℕ) → not (n == 0) ≡ false → n ≡ 0
zero_effects n h = ground (arith, h)

asked :
    (ask : Invocation → RawMessage → Process World ReconcileResult)
    → some ask_effect ≡ some ask
    → ask_effect ≡ ask
asked ask e = ap (λ o. elim o [ some f ↦ f | none ↦ ask_effect ]) e

memory-Contract : (dies : Bool) → Contract view input (runtime dies) memory
memory-Contract dies = record {
  now_later = stays;
  now_reads = λ w. refl;
  sleep_later = λ d w. record {
    clock_grows = omega arith;
    same_effects = refl;
    same_record = inl (refl, refl);
  };
  ctx_later = stays;
  uuid_later = stays;
  uuid_fresh = other_token-IsUnseen;
  crash_later = λ tool p w. hook-Later dies p w;
  claim_spec = λ mine w. claim_in-ClaimSpec mine w w.stored refl;
  get_later = stays;
  resolve_written = λ token rec w. swap_if-Written (is_held_by token w.stored) rec w;
  take_over_written = λ token rec w. swap_if-Written (is_held_by token w.stored) rec w;
  ask_later = λ ask e w.
      subst (λ f. Later view input w (left (f input.inv none w))) (asked ask e) (stays w);
  ask_truthful = λ ask e w.
      subst (λ f. AnswerSpec view input (f input.inv none w)) (asked ask e)
        (zero_effects w.effects);
  execute_effected = λ w. record {
    clock_grows = omega arith;
    at_most_one_more = omega arith;
    same_record = inl (refl, refl);
  };
}

-- The first worker dies between Execute and Resolve, the second one asks and finds the effect.
workers-effects_example :
    view.effects (
      workers view input
        (λ name args. ok "h")
        refl
        refl
        memory
        9
        (runtime true ∷ runtime false ∷ [])
        new_world)
    ≤ 1
workers-effects_example =
    workers-effects view input (λ name args. ok "h") refl refl memory 9
      (runtime true ∷ runtime false ∷ []) new_world
      (memory-Contract true, (memory-Contract false, tt))
      (record { started = omega arith; lasts = λ there. absurd (there refl) }) refl
