-- ===== src/Projector/Recovers.antt =====
-- applyWithRetry of cmd/projector/main.go rides out an outage of the database.
use Prim.Native.Char.{Char}
use durable_agent_execution.Events.{Envelope}
use durable_agent_execution.Prelude.{
  Bool, ℕ, ◌≡◌, str_dec, String, suc, false, true, ◌<◌, if◌then◌else◌, refl, ltb, arith, ◌⊎◌, ◌*◌,
  inl, err, ap, zero, inr, ◌∙◌,
}
use durable_agent_execution.Errors.{Error, conflicting_event, message, postgres}
use durable_agent_execution.Projector.{
  Consumer, apply_with_retry, after_apply, next_db_backoff, is_conflict, is_transient_error,
  is_transient_class, code_class, db_retry_initial_backoff, Error, Bool, ℕ, str_dec, Envelope,
}
use durable_agent_execution.Idempotency.Process.{
  Process, Ran, returned, raised, crashed, pure, raise, try, caught, after, ◌>>=◌,
}

-- The SQLSTATE of this class with these further characters.
abbrev pub code_of : Char → Char → String → String
code_of a b rest = String.◌∷◌ a (String.◌∷◌ b rest)

-- What an outage gives: no answer from the server, a lost connection (08), no resources (53), an
-- operator who intervenes (57), a transaction that is rolled back (40).
pub data IsPassing : Error → Type 0 where
  unanswered : (text : String) → IsPassing (message text)
  connection_lost : (rest : String) → IsPassing (postgres (code_of "0" "8" rest))
  no_resources : (rest : String) → IsPassing (postgres (code_of "5" "3" rest))
  intervention : (rest : String) → IsPassing (postgres (code_of "5" "7" rest))
  rolled_back : (rest : String) → IsPassing (postgres (code_of "4" "0" rest))

-- What no retry mends: another event in the same place, a value that its column does not take (22), a
-- violated constraint (23).
pub data IsLasting : Error → Type 0 where
  other_event : IsLasting conflicting_event
  bad_value : (rest : String) → IsLasting (postgres (code_of "2" "2" rest))
  violation : (rest : String) → IsLasting (postgres (code_of "2" "3" rest))

-- A success, the death of the process, or such an error.
abbrev pub IsSettled : {W : Type 0} → Ran W Bool → Type 0
IsSettled (returned inserted w) = Unit
IsSettled (raised e w) = IsLasting e
IsSettled (crashed w) = Unit

-- 200 ms, doubled so many times.
unfoldable pub doubled : ℕ → ℕ
doubled zero = 200000000
doubled (suc i) = doubled i * 2

-- At most 5 s.
unfoldable pub backoff_at : ℕ → ℕ
backoff_at i = if ltb 5000000000 (doubled i) then 5000000000 else doubled i

backoff_at-suc : (i : ℕ) → next_db_backoff (backoff_at i) ≡ backoff_at (suc i)
unfolding next_db_backoff backoff_at doubled
backoff_at-suc i = ground arith

first_backoff : db_retry_initial_backoff ≡ backoff_at 0
unfolding backoff_at doubled
first_backoff = refl

passing_lem : (e : Error) → IsPassing e → (is_conflict e ≡ false) × (is_transient_error e ≡ true)
unfolding is_conflict is_transient_error is_transient_class code_class str_dec
passing_lem _ (unanswered text) = (refl, refl)
passing_lem _ (connection_lost rest) = (refl, refl)
passing_lem _ (no_resources rest) = (refl, refl)
passing_lem _ (intervention rest) = (refl, refl)
passing_lem _ (rolled_back rest) = (refl, refl)

lasting_lem :
    (e : Error)
    → IsLasting e
    → (is_conflict e ≡ true) ⊎ ((is_conflict e ≡ false) × (is_transient_error e ≡ false))
unfolding is_conflict is_transient_error is_transient_class code_class str_dec
lasting_lem _ other_event = inl refl
lasting_lem _ (bad_value rest) = inr (refl, refl)
lasting_lem _ (violation rest) = inr (refl, refl)

module _ {W : Type 0} (consumer : Consumer W) (env : Envelope) where
  -- After i failures, so many more in a row: each time ApplyEvent fails for the outage, and a timer of
  -- 200 ms that is doubled with each failure up to 5 s ends before the context does.
  pub data Outage : ℕ → ℕ → W → W → Type 0 where
    over : (i : ℕ) (w : W) → Outage i 0 w w
    fails :
        {n i : ℕ} {w w₁ w₂ w' : W} (e : Error)
        → consumer.apply_event env w ≡ raised e w₁
        → IsPassing e
        → consumer.wait (backoff_at i) w₁ ≡ returned tt w₂
        → Outage (suc i) n w₂ w'
        → Outage i (suc n) w w'

  settled_error :
      (again : Process W Bool) (e : Error) (w : W)
      → (is_conflict e ≡ true) ⊎ ((is_conflict e ≡ false) × (is_transient_error e ≡ false))
      → after_apply consumer again (err e) w ≡ raised e w
  unfolding after_apply raise
  settled_error again e w (inl conflict) = ground (arith, conflict)
  settled_error again e w (inr lasting) = ground (arith, lasting.0, lasting.1)

  settled_once :
      (again : Process W Bool) (x : Ran W Bool)
      → IsSettled x
      → after (caught x) (after_apply consumer again) ≡ x
  unfolding after caught after_apply pure
  settled_once again (returned b w) h = refl
  settled_once again (crashed w) h = refl
  settled_once again (raised e w) h = settled_error again e w (lasting_lem e h)

  tries_again :
      (again : Process W Bool) (e : Error) (w : W)
      → (is_conflict e ≡ false) × (is_transient_error e ≡ true)
      → after (caught (raised e w)) (after_apply consumer again) ≡ again w
  unfolding after caught after_apply
  tries_again again e w passing = ground (arith, passing.0, passing.1)

  retried :
      (fuel n i backoff : ℕ) (w w' : W)
      → backoff ≡ backoff_at i
      → Outage i n w w'
      → IsSettled (consumer.apply_event env w')
      → n < fuel
      → apply_with_retry consumer fuel backoff env w ≡ consumer.apply_event env w'
  unfolding apply_with_retry try after
  retried zero n i backoff w w' is outage settled more = absurd (omega (arith, more))
  retried (suc fuel) _ _ backoff w _ is (over _ _) settled more =
      settled_once _ (consumer.apply_event env w) settled
  retried (suc fuel) _ i backoff w w' is
        (fails {n = n} {w₁ = w₁} {w₂ = w₂} e failed passing waited rest) settled more =
      let again : Process W Bool = consumer.wait backoff >>= λ t.
      apply_with_retry consumer fuel (next_db_backoff backoff) env in
      ap (λ x. after (caught x) (after_apply consumer again)) failed
      ∙ tries_again again e w₁ (passing_lem e passing)
      ∙ ap (λ x. after x (λ t. apply_with_retry consumer fuel (next_db_backoff backoff) env))
          (ap (λ b. consumer.wait b w₁) is ∙ waited)
      ∙ retried fuel n (suc i) (next_db_backoff backoff) w₂ w'
          (ap next_db_backoff is ∙ backoff_at-suc i) rest settled (omega (arith, more))

  -- However long an outage of the database lasts, applyWithRetry waits 200 ms, 400 ms and so on up to
  -- 5 s between its attempts, and ends with what ApplyEvent comes to after the outage, when that is a
  -- success, the death of the process, a conflict, a bad value or a violated constraint: as soon as it
  -- has more rounds than the outage has failures.
  pub apply_with_retry-Outage :
      (fuel n : ℕ) (w w' : W)
      → Outage 0 n w w'
      → IsSettled (consumer.apply_event env w')
      → n < fuel
      → apply_with_retry consumer fuel db_retry_initial_backoff env w ≡ consumer.apply_event env w'
  apply_with_retry-Outage fuel n w w' outage settled more =
      retried fuel n 0 db_retry_initial_backoff w w' first_backoff outage settled more
