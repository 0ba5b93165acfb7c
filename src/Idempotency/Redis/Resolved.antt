-- ===== src/Idempotency/Redis/Resolved.antt =====
-- A key moves from absent to claimed to resolved and never backwards (internal/idempotency/record.go),
-- by the operations of RedisStore (store.go).
use Prim.Native.Nat.{◌/◌}
use durable_agent_execution.Idempotency.Contract.{ClaimSpec}
use durable_agent_execution.Idempotency.Triple.{left-after}
use durable_agent_execution.Idempotency.Process.{
  left, Ran, returned, raised, crashed, pure, after, raise,
}
use durable_agent_execution.Idempotency.Store.{Store}
use durable_agent_execution.Idempotency.Redis.Refines.{
  IsRedis, Keeps, SetSpec, IsFree, IsRun, IsAfter, IsPut, ScriptSpec, redis_claim-late,
  compare_and_set-late, redis_claim-encoded, got-left, compare_and_set-encoded, claimed_of-left,
  cas_verdict-left, redis_claim-ClaimSpec, redis_get-Later, redis_view, compare_and_set-Written,
  in_milliseconds,
}
use durable_agent_execution.Idempotency.Claims.{Run}
use durable_agent_execution.Idempotency.Redis.{
  holds_claim, cas_script, ite, Client, false, Store, redis_get, Reply, redis_store, redis_claim,
  compare_and_set, got, ttl_seconds, claimed_of, cas_verdict, ◌/◌,
}
use durable_agent_execution.Prelude.{
  ℕ, ◌<◌, ◌≡◌, refl, Option, none, some, ok, inl, inr, true, ◌∙◌, ap, arith, Bool-cases, str_dec,
  String, ite, false, List, ◌≤◌, ◌∷◌, subst, ◌⊎◌, Option-cases, sym, [], ◌*◌, ◌+◌, ◌==◌,
}
use durable_agent_execution.Json.{Bytes, doc, obj, fits_int64}
use durable_agent_execution.Events.Codec.{TimeText, time_limit}
use durable_agent_execution.Idempotency.Record.{IdemRecord, resolved, ClaimResult}
use durable_agent_execution.Idempotency.Redis.Values.{
  state_name, state_of_name, record_wire, encode_record, decode_record, read_record, is_early,
  into_time_ptr, write_time_ptr,
}

module _ (text : TimeText) where
  encode_record-wire :
      (rec : IdemRecord) (b : Bytes)
      → encode_record text rec ≡ some b
      → (rec.claimed_at < time_limit)
        × (is_early text rec.resolved_at ≡ true)
        × (b ≡ doc (obj (record_wire text rec)))
  unfolding encode_record
  encode_record-wire rec b h = elim (Bool-cases (is_early text rec.resolved_at)) [
    | inl early ↦ (ground (arith, h, early), early, ground (arith, h, early))
    | inr late ↦ absurd (ground (arith, h, late))
  ]

  into_time_ptr-write :
      (o cur : Option ℕ)
      → is_early text o ≡ true
      → into_time_ptr text cur (write_time_ptr text o) ≡ some o
  unfolding into_time_ptr write_time_ptr
  into_time_ptr-write none cur early = refl
  into_time_ptr-write (some t) cur early = ground (arith, text.parse-format t)

  read_record-wire :
      (rec : IdemRecord)
      → state_of_name (state_name rec.state) ≡ rec.state
      → fits_int64 rec.step ≡ true
      → rec.claimed_at < time_limit
      → is_early text rec.resolved_at ≡ true
      → read_record text (record_wire text rec) ≡ ok rec
  unfolding read_record record_wire
  read_record-wire rec known fits early early' = ground (
    arith,
    text.parse-format rec.claimed_at,
    into_time_ptr-write rec.resolved_at none early',
    known,
    fits,
  )

  -- A record whose step is an int64 and whose state is one of the two that the package names is read
  -- back from the value that Marshal writes for it.
  pub decode_record-encode :
      (rec : IdemRecord) (b : Bytes)
      → state_of_name (state_name rec.state) ≡ rec.state
      → fits_int64 rec.step ≡ true
      → encode_record text rec ≡ some b
      → decode_record text b ≡ ok rec
  unfolding decode_record
  decode_record-encode rec b known fits h =
      let (early, early', is) = encode_record-wire rec b h in
      ap (decode_record text) is ∙ ground (arith, read_record-wire rec known fits early early')

  holds_claim-wire :
      (rec : IdemRecord) (expected : String)
      → holds_claim expected (record_wire text rec)
        ≡ ite
            (str_dec (state_name rec.state) "claimed")
            (ite (str_dec rec.claim_token expected) true false)
            false
  unfolding holds_claim record_wire str_dec
  holds_claim-wire rec expected = refl

  no_claim :
      (expected token : String)
      → ite
          (str_dec (state_name resolved) "claimed")
          (ite (str_dec token expected) true false)
          false
        ≡ false
  unfolding state_name str_dec
  no_claim expected token = refl

  holds_claim-resolved :
      (rec : IdemRecord) (expected : String)
      → rec.state ≡ resolved
      → holds_claim expected (record_wire text rec) ≡ false
  holds_claim-resolved rec expected done =
      holds_claim-wire rec expected
      ∙ ap
          (λ s.
            ite (str_dec (state_name s) "claimed")
              (ite (str_dec rec.claim_token expected) true false) false)
          done
      ∙ no_claim expected rec.claim_token

  cas_script-resolved :
      (rec : IdemRecord) (b new : Bytes) (expected : String) (seconds : ℕ)
      → rec.state ≡ resolved
      → encode_record text rec ≡ some b
      → cas_script expected new seconds (some b) ≡ record { answer = 0; sets = none }
  unfolding cas_script
  cas_script-resolved rec b new expected seconds done made =
      ap (λ c. cas_script expected new seconds (some c)) (encode_record-wire rec b made).2
      ∙ ground (arith, holds_claim-resolved rec expected done)

cas_script-answered :
    (token : String) (b : Bytes) (seconds : ℕ) (old : Option Bytes)
    → (cas_script token b seconds old).answer ≡ 1
    → (cas_script token b seconds old).sets ≡ some (b, seconds)
unfolding cas_script
cas_script-answered token b seconds (some (doc (obj fs))) h =
    elim (Bool-cases (holds_claim token fs)) [
      | inl holds ↦ ground (arith, holds)
      | inr lost ↦ absurd (ground (arith, lost, h))
    ]
cas_script-answered token b seconds _ h = absurd (omega (arith, h))

-- The operations of a Store, by their arguments.
pub data Operation : Type 0 where
  claims : IdemRecord → Operation
  gets : Operation
  resolves takes_over : String → IdemRecord → Operation

module _ {W : Type 0} (text : TimeText) (clock effects deadline : W → ℕ) (value : W → Option Bytes)
    (r : Run W) (client : Client W) (ttl : ℕ)
    (c : IsRedis text clock effects deadline value r client)
    (covers : r.cfg.ttl ≤ ttl / 1000000000 * 1000000000) where
  abbrev store : Store W
  store = redis_store text client ttl

  -- The world that an operation on the run's key leaves, however it ends.
  abbrev pub perform : Operation → W → W
  perform (claims rec) w = left (store.claim r.key rec w)
  perform gets w = left (store.get_record r.key w)
  perform (resolves token rec) w = left (store.resolve r.key token rec w)
  perform (takes_over token rec) w = left (store.take_over r.key token rec w)

  abbrev pub perform_all : List Operation → W → W
  perform_all [] w = w
  perform_all (op ∷ ops) w = perform_all ops (perform op w)

  -- The value is there still, with its deadline, or this is over.
  abbrev IsStill : W → W → Type 0
  IsStill w w' = ((value w' ≡ value w) × (deadline w' ≡ deadline w)) ⊎ (deadline w ≤ clock w')

  still : (w w' : W) → Keeps text clock effects deadline value r w w' → IsStill w w'
  still w w' (inl same) = inl same
  still w w' (inr gone) = inr gone.1

  abbrev Stays : W → W → Type 0
  Stays w w' = IsStill w w' × (clock w ≤ clock w')

  claim_grows :
      (mine : IdemRecord) (w : W) (x : Ran W ClaimResult)
      → ClaimSpec (redis_view text clock effects deadline value r) r mine w x
      → clock w ≤ clock (left x)
  claim_grows mine w (returned a w') s = s.0.clock_grows
  claim_grows mine w (raised e w') s = s.0.clock_grows
  claim_grows mine w (crashed w') s = s.0.clock_grows

  perform-grows : (op : Operation) (w : W) → clock w ≤ clock (perform op w)
  unfolding redis_store
  perform-grows (claims mine) w =
      claim_grows mine w _
        (redis_claim-ClaimSpec text clock effects deadline value r client ttl c covers mine w)
  perform-grows gets w =
      (redis_get-Later text clock effects deadline value r client ttl c covers w).clock_grows
  perform-grows (resolves token mine) w =
      (compare_and_set-Written text clock effects deadline value r client ttl c covers token mine
        w).clock_grows
  perform-grows (takes_over token mine) w =
      (compare_and_set-Written text clock effects deadline value r client ttl c covers token mine
        w).clock_grows

  perform_all-grows : (ops : List Operation) (w : W) → clock w ≤ clock (perform_all ops w)
  perform_all-grows [] w = omega arith
  perform_all-grows (op ∷ ops) w =
      omega (arith, perform-grows op w, perform_all-grows ops (perform op w))

  cas_verdict-returned :
      (n : ℕ) (w w' : W) → cas_verdict text client ttl n w ≡ returned tt w' → (n ≡ 1) × (w ≡ w')
  unfolding cas_verdict pure raise
  cas_verdict-returned n w w' h = (
    elim (Bool-cases (n == 1)) [
      | inl one ↦ ground (arith, one)
      | inr other ↦ absurd (ground (arith, other, h))
    ],
    sym (cas_verdict-left text clock effects deadline value r client ttl c covers n w) ∙ ap left h,
  )

  module _ (rec : IdemRecord) (b : Bytes) (done : rec.state ≡ resolved)
      (made : encode_record text rec ≡ some b) where
    over_of :
        (w w' : W)
        → value w ≡ some b
        → IsFree text clock effects deadline value r w w'
        → IsStill w w'
    over_of w w' there (inl absent) = absurd (cc (there, absent))
    over_of w w' there (inr over) = inr over

    set-Stays :
        (new : Bytes) (w : W) (x : Ran W (Option Bytes))
        → value w ≡ some b
        → SetSpec text clock effects deadline value r new (in_milliseconds ttl) w x
        → IsStill w (left x)
    set-Stays new w (returned none w') there s = over_of w w' there s.0
    set-Stays new w (returned (some old) w') there s = still w w' s.1
    set-Stays new w (raised e w') there (inl keeps) = still w w' keeps
    set-Stays new w (raised e w') there (inr s) = over_of w w' there s.0
    set-Stays new w (crashed w') there (inl keeps) = still w w' keeps
    set-Stays new w (crashed w') there (inr s) = over_of w w' there s.0

    claim-Stays :
        (mine : IdemRecord) (w : W)
        → value w ≡ some b
        → Stays w (left (redis_claim text client ttl r.key mine w))
    claim-Stays mine w there = elim (Option-cases (encode_record text mine)) [
      | inl late ↦
          subst (Stays w)
            (sym (
              ap left (
                redis_claim-late text clock effects deadline value r client ttl c covers mine w
                  late)))
            (inl (refl, refl), omega arith)
      | inr (new, is) ↦
          subst (Stays w)
            (sym (
              ap left (
                redis_claim-encoded text clock effects deadline value r client ttl c covers mine new
                  w is)
              ∙ left-after (client.set_args r.key new ttl w) (claimed_of text client ttl)
                  (claimed_of-left text clock effects deadline value r client ttl c covers)))
            (set-Stays new w _ there (c.set_spec new ttl w), (c.set_ticks new ttl w).clock_grows)
    ]

    get-Stays : (w : W) → Stays w (left (redis_get text client ttl r.key w))
    unfolding redis_get
    get-Stays w =
        subst (Stays w)
          (sym (
            left-after (client.get r.key w) (got text client ttl)
              (got-left text clock effects deadline value r client ttl c covers)))
          (still w _ (c.get_keeps w), (c.get_ticks w).clock_grows)

    script-Stays :
        (f : Option Bytes → Reply) (w : W) (x : Ran W ℕ)
        → value w ≡ some b
        → f (some b) ≡ record { answer = 0; sets = none }
        → ScriptSpec text clock effects deadline value r f w x
        → IsStill w (left x)
    script-Stays f w x there idle s = go x s
      where
        run_still :
            (w' : W) (n : ℕ) → IsRun text clock effects deadline value r f w w' n → IsStill w w'
        run_still w' n (old, inl found, answer, done) = still w w' (
            subst (λ y. IsAfter text clock effects deadline value r y w w')
              (ap (λ (y : Reply). y.sets) (ap f (found ∙ there) ∙ idle)) done)
        run_still w' n (old, inr over, answer, done) = inr over.1

        go :
            (x : Ran W ℕ)
            → ScriptSpec text clock effects deadline value r f w x
            → IsStill w (left x)
        go (returned n w') s = run_still w' n s
        go (raised e w') (inl keeps) = still w w' keeps
        go (raised e w') (inr (n, s)) = run_still w' n s
        go (crashed w') (inl keeps) = still w w' keeps
        go (crashed w') (inr (n, s)) = run_still w' n s

    cas-Stays :
        (token : String) (mine : IdemRecord) (w : W)
        → value w ≡ some b
        → Stays w (left (compare_and_set text client ttl r.key token mine w))
    cas-Stays token mine w there = elim (Option-cases (encode_record text mine)) [
      | inl late ↦
          subst (Stays w)
            (sym (
              ap left (
                compare_and_set-late text clock effects deadline value r client ttl c covers token
                  mine w late)))
            (inl (refl, refl), omega arith)
      | inr (new, is) ↦
          let script = cas_script token new (ttl_seconds text client ttl) in
          subst (Stays w)
            (sym (
              ap left (
                compare_and_set-encoded text clock effects deadline value r client ttl c covers
                  token mine new w is)
              ∙ left-after (client.run_script script r.key w) (cas_verdict text client ttl)
                  (cas_verdict-left text clock effects deadline value r client ttl c covers)))
            (
              script-Stays script w _ there
                  (cas_script-resolved text rec b new token (ttl_seconds text client ttl) done made)
                  (c.script_spec script w),
              (c.script_ticks script w).clock_grows,
            )
    ]

    perform-Stays : (op : Operation) (w : W) → value w ≡ some b → Stays w (perform op w)
    unfolding redis_store
    perform-Stays (claims mine) w there = claim-Stays mine w there
    perform-Stays gets w there = get-Stays w
    perform-Stays (resolves token mine) w there = cas-Stays token mine w there
    perform-Stays (takes_over token mine) w there = cas-Stays token mine w there

    stays_resolved :
        (ops : List Operation) (w : W)
        → value w ≡ some b
        → (value (perform_all ops w) ≡ some b) ⊎ (deadline w ≤ clock (perform_all ops w))
    stays_resolved [] w there = inl there
    stays_resolved (op ∷ ops) w there = elim (perform-Stays op w there).0 [
      | inl same ↦ elim (stays_resolved ops (perform op w) (same.0 ∙ there)) [
        | inl kept ↦ inl kept
        | inr over ↦ inr (omega (arith, over, same.1))
      ]
      | inr over ↦ inr (omega (arith, over, perform_all-grows ops (perform op w)))
    ]

    -- A Resolve that returned: the record is set, for the TTL in whole seconds.
    swapped :
        (token : String) (w w' : W) (x : Ran W ℕ)
        → ScriptSpec text clock effects deadline value r (cas_script token b (ttl / 1000000000)) w x
        → after x (cas_verdict text client ttl) ≡ returned tt w'
        → IsPut text clock effects deadline value r b (ttl / 1000000000 * 1000000000) w w'
    unfolding after
    swapped token w w' (returned n w1) (old, found, answer, done) h =
        let (one, here) = cas_verdict-returned n w1 w' h in
        subst (IsPut text clock effects deadline value r b (ttl / 1000000000 * 1000000000) w) here (
          subst (λ x. IsAfter text clock effects deadline value r x w w1)
            (cas_script-answered token b (ttl / 1000000000) old (sym answer ∙ one)) done)
    swapped token w w' (raised e w1) s h = absurd (cc h)
    swapped token w w' (crashed w1) s h = absurd (cc h)

    resolve-IsPut :
        (token : String) (w w' : W)
        → compare_and_set text client ttl r.key token rec w ≡ returned tt w'
        → IsPut text clock effects deadline value r b (ttl / 1000000000 * 1000000000) w w'
    resolve-IsPut token w w' h =
        swapped token w w' (client.run_script (cas_script token b (ttl / 1000000000)) r.key w)
          (c.script_spec (cas_script token b (ttl / 1000000000)) w)
          (sym (
              compare_and_set-encoded text clock effects deadline value r client ttl c covers token
                rec b w made)
            ∙ h)

    -- Once a Resolve of RedisStore has returned, the key carries the resolved record for the store's
    -- TTL, in whole seconds, since the call of Resolve: until then no operation of the store, by
    -- whomever and however it ends, changes it. Redis acts on the key as IsRedis says, and the store's
    -- TTL, in whole seconds, is not shorter than the Guard's.
    pub resolved-Stays :
        (token : String) (ops : List Operation) (w w' : W)
        → store.resolve r.key token rec w ≡ returned tt w'
        → (value (perform_all ops w') ≡ some b)
          ⊎ (clock w + ttl / 1000000000 * 1000000000 ≤ clock (perform_all ops w'))
    unfolding redis_store
    resolved-Stays token ops w w' h = elim (resolve-IsPut token w w' h) [
      | inl there ↦ elim (stays_resolved ops w' there.0) [
        | inl kept ↦ inl kept
        | inr over ↦ inr (omega (arith, there.1, over))
      ]
      | inr gone ↦ inr (omega (arith, gone.1, perform_all-grows ops w'))
    ]
