-- ===== src/Idempotency/Redis/Refines.antt =====
-- RedisStore (internal/idempotency/store.go) against the contract of the interface Store.
use Prim.Native.Nat.{◌/◌}
use durable_agent_execution.Prelude.{
  ℕ, ◌≡◌, ◌≤◌, refl, String, Option, none, some, ok, err, Result, inl, inr, ◌⊎◌, false, ◌∙◌, sym,
  ap, subst, arith, Option-cases, Result-cases, ◌*◌, ◌≢◌, ◌+◌, Bool-cases,
}
use durable_agent_execution.Prelude.Int64.{pos}
use durable_agent_execution.Errors.{Error, message}
use durable_agent_execution.Json.{Bytes}
use durable_agent_execution.Events.Codec.{TimeText}
use durable_agent_execution.Idempotency.Process.{
  Ran, returned, raised, crashed, left, pure, after, raise,
}
use durable_agent_execution.Idempotency.Triple.{left-after}
use durable_agent_execution.Idempotency.Record.{other_state, IdemRecord}
use durable_agent_execution.Idempotency.Claims.{Run}
use durable_agent_execution.Idempotency.Contract.{
  View, Later, Written, ClaimSpec, IsLeft, IsVacant, IsOutlived, Later→Written,
}
use durable_agent_execution.Idempotency.Redis.{
  Client, Reply, redis_claim, redis_get, compare_and_set, claimed_of, got, cas_verdict, decoded,
  cas_script, ttl_seconds, doc, ◌/◌, obj, holds_claim,
}
use durable_agent_execution.Idempotency.Redis.Values.{decode_record, encode_record}

-- What stands for a value that is no record.
abbrev no_record : IdemRecord
no_record = record {
  state = other_state "";
  run_id = "";
  step = pos 0;
  tool_use_id = "";
  tool_name = "";
  args_hash = "";
  claim_token = "";
  claimed_by = "";
  claimed_at = 0;
  resolved_at = none;
  result = none;
  status = none;
  resolution = none;
}

abbrev or_no_record : Result Error IdemRecord → IdemRecord
or_no_record (ok rec) = rec
or_no_record (err e) = no_record

abbrev pub stored_of : TimeText → Option Bytes → Option IdemRecord
stored_of text none = none
stored_of text (some b) = some (or_no_record (decode_record text b))

-- The script sets the new value, for the TTL that it is given, or nothing.
pub cas_script-sets :
    (token : String) (b : Bytes) (seconds : ℕ) (old : Option Bytes)
    → ((cas_script token b seconds old).sets ≡ none)
      ⊎ ((cas_script token b seconds old).sets ≡ some (b, seconds))
unfolding cas_script
cas_script-sets token b seconds (some (doc (obj fs))) = elim (Bool-cases (holds_claim token fs)) [
  | inl holds ↦ inr (ground (arith, holds))
  | inr lost ↦ inl (ground (arith, lost))
]
cas_script-sets token b seconds _ = inl refl

-- The TTL that the client sends with a SET, which is in milliseconds (PX) or seconds (EX).
abbrev pub in_milliseconds : ℕ → ℕ
in_milliseconds life = life / 1000000 * 1000000

module _ {W : Type 0} (text : TimeText) (clock effects deadline : W → ℕ) (value : W → Option Bytes)
    (r : Run W) where
  -- The world by the value that Redis holds under the key, and its expiry.
  abbrev pub redis_view : View W
  redis_view = record {
    clock = clock;
    deadline = deadline;
    effects = effects;
    stored = λ w. stored_of text (value w);
  }

  -- A command takes time, and has no effect of a tool.
  pub record Ticked (w w' : W) : Type 0 where
    pub clock_grows : clock w ≤ clock w'
    pub same_effects : effects w' ≡ effects w

  -- The value of w has expired by w'.
  abbrev pub HasExpired : W → W → Type 0
  HasExpired w w' = deadline w ≤ clock w'

  abbrev pub Keeps : W → W → Type 0
  Keeps w w' =
      ((value w' ≡ value w) × (deadline w' ≡ deadline w)) ⊎ ((value w' ≡ none) × HasExpired w w')

  -- A value is set, to live so long: it expires at its deadline at the earliest.
  abbrev pub IsPut : Bytes → ℕ → W → W → Type 0
  IsPut b life w w' =
      ((value w' ≡ some b) × (clock w + life ≤ deadline w'))
      ⊎ ((value w' ≡ none) × (clock w + life ≤ clock w'))

  abbrev pub IsFree : W → W → Type 0
  IsFree w w' = (value w ≡ none) ⊎ HasExpired w w'

  -- The value that a script finds: the one of w, or none if this expires.
  abbrev pub IsFound : Option Bytes → W → W → Type 0
  IsFound old w w' = (old ≡ value w) ⊎ ((old ≡ none) × HasExpired w w')

  abbrev pub IsAfter : Option (Bytes × ℕ) → W → W → Type 0
  IsAfter none w w' = Keeps w w'
  IsAfter (some (b, seconds)) w w' = IsPut b (seconds * 1000000000) w w'

  -- SET NX GET with a time to live. A command without an answer may have been carried out.
  abbrev pub SetSpec : Bytes → ℕ → W → Ran W (Option Bytes) → Type 0
  SetSpec b life w (returned none w') = IsFree w w' × IsPut b life w w'
  SetSpec b life w (returned (some old) w') = (value w ≡ some old) × Keeps w w'
  SetSpec b life w (raised e w') = Keeps w w' ⊎ (IsFree w w' × IsPut b life w w')
  SetSpec b life w (crashed w') = Keeps w w' ⊎ (IsFree w w' × IsPut b life w w')

  abbrev pub IsRun : (Option Bytes → Reply) → W → W → ℕ → Type 0
  IsRun f w w' n =
      (old : Option Bytes) × IsFound old w w' × (n ≡ (f old).answer) × IsAfter (f old).sets w w'

  abbrev pub ScriptSpec : (Option Bytes → Reply) → W → Ran W ℕ → Type 0
  ScriptSpec f w (returned n w') = IsRun f w w' n
  ScriptSpec f w (raised e w') = Keeps w w' ⊎ ((n : ℕ) × IsRun f w w' n)
  ScriptSpec f w (crashed w') = Keeps w w' ⊎ ((n : ℕ) × IsRun f w w' n)

  -- Redis as it is documented, for the key of the run: a value lives for the TTL that its SET gives, and
  -- may be gone at any moment after that.
  pub record IsRedis (client : Client W) : Type 0 where
    pub set_ticks :
        (b : Bytes) (life : ℕ) (w : W) → Ticked w (left (client.set_args r.key b life w))
    pub set_spec :
        (b : Bytes) (life : ℕ) (w : W)
        → SetSpec b (in_milliseconds life) w (client.set_args r.key b life w)
    pub get_ticks : (w : W) → Ticked w (left (client.get r.key w))
    pub get_keeps : (w : W) → Keeps w (left (client.get r.key w))
    pub script_ticks :
        (f : Option Bytes → Reply) (w : W) → Ticked w (left (client.run_script f r.key w))
    pub script_spec :
        (f : Option Bytes → Reply) (w : W) → ScriptSpec f w (client.run_script f r.key w)

  pub stored-Keeps : (w w' : W) → Keeps w w' → IsLeft redis_view r w w'
  stored-Keeps w w' (inl same) = inl (ap (stored_of text) same.0, same.1)
  stored-Keeps w w' (inr gone) = inr (ap (stored_of text) gone.0, gone.1)

  quiet_step : (w w' : W) → Ticked w w' → Keeps w w' → Later redis_view r w w'
  quiet_step w w' t keeps = record {
    clock_grows = t.clock_grows;
    same_effects = t.same_effects;
    same_record = stored-Keeps w w' keeps;
  }

  kept_step : (w w' : W) → Ticked w w' → Keeps w w' → Written redis_view r w w'
  kept_step w w' t keeps = Later→Written redis_view r (quiet_step w w' t keeps)

  absent_value : (o : Option Bytes) → stored_of text o ≡ none → o ≡ none
  absent_value none h = refl
  absent_value (some b) h = absurd (cc h)

  vacant : (w w' : W) → IsFree w w' → IsVacant redis_view r w w'
  vacant w w' (inl absent) = inl (ap (stored_of text) absent)
  vacant w w' (inr over) = inr over

  -- A value that is set to live for the TTL at least.
  set_step :
      (b : Bytes) (life : ℕ) (w w' : W)
      → r.cfg.ttl ≤ life
      → Ticked w w'
      → IsPut b life w w'
      → Written redis_view r w w'
  set_step b life w w' long t (inl there) = record {
    clock_grows = t.clock_grows;
    same_effects = t.same_effects;
    still_there = λ gone. absurd (cc (there.0, absent_value (value w') gone));
    lives = λ _. inr (omega (arith, there.1, long));
  }
  set_step b life w w' long t (inr gone) = record {
    clock_grows = t.clock_grows;
    same_effects = t.same_effects;
    still_there = λ _. inr (omega (arith, gone.1, long));
    lives = λ there. absurd (there (ap (stored_of text) gone.0));
  }

  stands :
      (b : Bytes) (life : ℕ) (w w' : W)
      → r.cfg.ttl ≤ life
      → IsPut b life w w'
      → (stored_of text (value w') ≢ none) ⊎ IsOutlived redis_view r w w'
  stands b life w w' long (inl there) =
      inl (λ gone. absurd (cc (there.0, absent_value (value w') gone)))
  stands b life w w' long (inr gone) = inr (omega (arith, gone.1, long))

  -- The store's TTL, in the whole seconds that the script passes, covers the one of the Guard.
  module _ (client : Client W) (ttl : ℕ) (c : IsRedis client)
      (covers : r.cfg.ttl ≤ ttl / 1000000000 * 1000000000) where
    covers_all : r.cfg.ttl ≤ in_milliseconds ttl
    covers_all = omega (arith, covers)

    decoded-left : (b : Bytes) (w : W) → left (decoded text client ttl b w) ≡ w
    unfolding decoded pure raise
    decoded-left b w = elim (Result-cases (decode_record text b)) [
      | inl (rec, good) ↦ ground (arith, good)
      | inr (e, bad) ↦ ground (arith, bad)
    ]

    pub got-left : (o : Option Bytes) (w : W) → left (got text client ttl o w) ≡ w
    unfolding got pure
    got-left none w = refl
    got-left (some b) w =
        left-after (decoded text client ttl b w) _ (λ rec u. refl) ∙ decoded-left b w

    pub claimed_of-left : (o : Option Bytes) (w : W) → left (claimed_of text client ttl o w) ≡ w
    unfolding claimed_of pure
    claimed_of-left none w = refl
    claimed_of-left (some b) w =
        left-after (decoded text client ttl b w) _ (λ rec u. refl) ∙ decoded-left b w

    pub redis_get-Later : (w : W) → Later redis_view r w (left (redis_get text client ttl r.key w))
    unfolding redis_get
    redis_get-Later w =
        subst (Later redis_view r w)
          (sym (left-after (client.get r.key w) (got text client ttl) got-left))
          (quiet_step w _ (c.get_ticks w) (c.get_keeps w))

    claimed_of-record :
        (old : Bytes) (w : W) (rec : IdemRecord)
        → decode_record text old ≡ ok rec
        → claimed_of text client ttl (some old) w
          ≡ returned (record { acquired = false; existing = some rec }) w
    unfolding claimed_of decoded after pure raise
    claimed_of-record old w rec good = ground (arith, good)

    claimed_of-corrupt :
        (old : Bytes) (w : W) (e : Error)
        → decode_record text old ≡ err e
        → claimed_of text client ttl (some old) w ≡ raised e w
    unfolding claimed_of decoded after pure raise
    claimed_of-corrupt old w e bad = ground (arith, bad)

    unchanged :
        (w w' : W)
        → Keeps w w'
        → (stored_of text (value w') ≡ stored_of text (value w))
          ⊎ IsVacant redis_view r w w'
          ⊎ (stored_of text (value w') ≡ none)
    unchanged w w' (inl same) = inl (ap (stored_of text) same.0)
    unchanged w w' (inr gone) = inr (inr (ap (stored_of text) gone.0))

    -- Claim refused by a value: the record that is there, or an error if it is none.
    refused :
        (mine : IdemRecord) (old : Bytes) (w w' : W)
        → Ticked w w'
        → value w ≡ some old
        → Keeps w w'
        → ClaimSpec redis_view r mine w (claimed_of text client ttl (some old) w')
    refused mine old w w' t was keeps = elim (Result-cases (decode_record text old)) [
      | inl (rec, good) ↦
          subst (ClaimSpec redis_view r mine w) (sym (claimed_of-record old w' rec good)) (
            kept_step w w' t keeps,
            λ acquired. absurd (cc acquired),
            λ _ ex there. ap (stored_of text) was ∙ ap (λ x. some (or_no_record x)) good ∙ there,
          )
      | inr (e, bad) ↦
          subst (ClaimSpec redis_view r mine w) (sym (claimed_of-corrupt old w' e bad))
            (kept_step w w' t keeps, unchanged w w' keeps)
    ]

    -- The command without an answer.
    unanswered :
        (b : Bytes) (w w' : W)
        → Keeps w w' ⊎ (IsFree w w' × IsPut b (in_milliseconds ttl) w w')
        → Ticked w w'
        → Written redis_view r w w'
          × ((stored_of text (value w') ≡ stored_of text (value w))
              ⊎ IsVacant redis_view r w w'
              ⊎ (stored_of text (value w') ≡ none))
    unanswered b w w' (inl keeps) t = (kept_step w w' t keeps, unchanged w w' keeps)
    unanswered b w w' (inr (free, set)) t =
        (set_step b (in_milliseconds ttl) w w' covers_all t set, inr (inl (vacant w w' free)))

    claimed :
        (mine : IdemRecord) (b : Bytes) (w : W) (x : Ran W (Option Bytes))
        → SetSpec b (in_milliseconds ttl) w x
        → Ticked w (left x)
        → ClaimSpec redis_view r mine w (after x (claimed_of text client ttl))
    unfolding after claimed_of pure
    claimed mine b w (returned none w') s t = (
      set_step b (in_milliseconds ttl) w w' covers_all t s.1,
      λ _. (vacant w w' s.0, stands b (in_milliseconds ttl) w w' covers_all s.1),
      λ is_refused. absurd (cc is_refused),
    )
    claimed mine b w (returned (some old) w') s t = refused mine old w w' t s.0 s.1
    claimed mine b w (raised e w') s t = unanswered b w w' s t
    claimed mine b w (crashed w') s t = unanswered b w w' s t

    unmoved : (w : W) → Written redis_view r w w
    unmoved w =
        kept_step w w (record { clock_grows = omega arith; same_effects = refl }) (inl (refl, refl))

    pub redis_claim-encoded :
        (mine : IdemRecord) (b : Bytes) (w : W)
        → encode_record text mine ≡ some b
        → redis_claim text client ttl r.key mine w
          ≡ after (client.set_args r.key b ttl w) (claimed_of text client ttl)
    unfolding redis_claim
    redis_claim-encoded mine b w made = ground (arith, made)

    pub redis_claim-late :
        (mine : IdemRecord) (w : W)
        → encode_record text mine ≡ none
        → redis_claim text client ttl r.key mine w ≡ raised (message "encoding claim record") w
    unfolding redis_claim raise
    redis_claim-late mine w late = ground (arith, late)

    pub redis_claim-ClaimSpec :
        (mine : IdemRecord) (w : W)
        → ClaimSpec redis_view r mine w (redis_claim text client ttl r.key mine w)
    redis_claim-ClaimSpec mine w = elim (Option-cases (encode_record text mine)) [
      | inl late ↦
          subst (ClaimSpec redis_view r mine w) (sym (redis_claim-late mine w late))
            (unmoved w, inl refl)
      | inr (b, made) ↦
          subst (ClaimSpec redis_view r mine w) (sym (redis_claim-encoded mine b w made))
            (claimed mine b w _ (c.set_spec b ttl w) (c.set_ticks b ttl w))
    ]

    pub cas_verdict-left : (n : ℕ) (w : W) → left (cas_verdict text client ttl n w) ≡ w
    unfolding cas_verdict pure raise
    cas_verdict-left n w = ground arith

    run-Written :
        (token : String) (b : Bytes) (w w' : W) (n : ℕ)
        → IsRun (cas_script token b (ttl_seconds text client ttl)) w w' n
        → Ticked w w'
        → Written redis_view r w w'
    run-Written token b w w' n (old, found, answer, done) t =
        elim (cas_script-sets token b (ttl_seconds text client ttl) old) [
          | inl idle ↦ kept_step w w' t (subst (λ x. IsAfter x w w') idle done)
          | inr sets ↦
              set_step b (ttl_seconds text client ttl * 1000000000) w w' covers t
                (subst (λ x. IsAfter x w w') sets done)
        ]

    script-Written :
        (token : String) (b : Bytes) (w : W) (x : Ran W ℕ)
        → ScriptSpec (cas_script token b (ttl_seconds text client ttl)) w x
        → Ticked w (left x)
        → Written redis_view r w (left x)
    script-Written token b w (returned n w') s t = run-Written token b w w' n s t
    script-Written token b w (raised e w') (inl keeps) t = kept_step w w' t keeps
    script-Written token b w (raised e w') (inr (n, s)) t = run-Written token b w w' n s t
    script-Written token b w (crashed w') (inl keeps) t = kept_step w w' t keeps
    script-Written token b w (crashed w') (inr (n, s)) t = run-Written token b w w' n s t

    pub compare_and_set-encoded :
        (token : String) (rec : IdemRecord) (b : Bytes) (w : W)
        → encode_record text rec ≡ some b
        → compare_and_set text client ttl r.key token rec w
          ≡ after
              (client.run_script (cas_script token b (ttl_seconds text client ttl)) r.key w)
              (cas_verdict text client ttl)
    unfolding compare_and_set
    compare_and_set-encoded token rec b w made = ground (arith, made)

    pub compare_and_set-late :
        (token : String) (rec : IdemRecord) (w : W)
        → encode_record text rec ≡ none
        → compare_and_set text client ttl r.key token rec w ≡ raised (message "encoding record") w
    unfolding compare_and_set raise
    compare_and_set-late token rec w late = ground (arith, late)

    pub compare_and_set-Written :
        (token : String) (rec : IdemRecord) (w : W)
        → Written redis_view r w (left (compare_and_set text client ttl r.key token rec w))
    compare_and_set-Written token rec w = elim (Option-cases (encode_record text rec)) [
      | inl late ↦
          subst (λ x. Written redis_view r w (left x)) (sym (compare_and_set-late token rec w late))
            (unmoved w)
      | inr (b, made) ↦
          let script = cas_script token b (ttl_seconds text client ttl) in
          subst (Written redis_view r w)
            (sym (
              ap left (compare_and_set-encoded token rec b w made)
              ∙ left-after (client.run_script script r.key w) (cas_verdict text client ttl)
                  cas_verdict-left))
            (script-Written token b w _ (c.script_spec script w) (c.script_ticks script w))
    ]
