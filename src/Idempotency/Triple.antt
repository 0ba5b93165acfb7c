-- ===== src/Idempotency/Triple.antt =====
-- Triples over processes: from a world in P, a process that returns meets Q, and one that raises an
-- error or dies leaves a world in R.
use durable_agent_execution.Idempotency.Process.{◌>>=◌, left}
use durable_agent_execution.Idempotency.Claims.{consult, mapped, store_err}
use durable_agent_execution.Errors.{Error, fence_unavailable}
use durable_agent_execution.Idempotency.Retry.{
  Runtime, after_attempt, retry_loop, retry, retry_attempts, is_final, retry_initial_backoff,
  after_sleep, next_backoff,
}
use durable_agent_execution.Idempotency.Process.{
  Ran, Process, pure, raise, try, returned, raised, after, crashed, caught,
}
use durable_agent_execution.Prelude.{
  ◌≡◌, refl, Bool, true, ok, ℕ, false, err, if◌then◌else◌, Result, suc, ◌-◌, zero, Option, none,
  some,
}

module _ {W A : Type 0} where
  abbrev pub Ends : (A → W → Type 0) → (W → Type 0) → Ran W A → Type 0
  Ends Q R (returned a w) = Q a w
  Ends Q R (raised e w) = R w
  Ends Q R (crashed w) = R w

  pub record Triple (P : W → Type 0) (m : Process W A) (Q : A → W → Type 0) (R : W → Type 0)
      : Type 0 where
    pub run : (w : W) → P w → Ends Q R (m w)

module _ {W A : Type 0} {P : W → Type 0} {Q : A → W → Type 0} {R : W → Type 0} where
  pub Triple-pure : (a : A) → ((w : W) → P w → Q a w) → Triple P (pure a) Q R
  unfolding pure
  Triple-pure a h = record { run = h }

  pub Triple-raise : (e : Error) → ((w : W) → P w → R w) → Triple P (raise e) Q R
  unfolding raise
  Triple-raise e h = record { run = h }

  pub Triple-if :
      (b : Bool) (m n : Process W A)
      → (b ≡ true → Triple P m Q R)
      → (b ≡ false → Triple P n Q R)
      → Triple P (if b then m else n) Q R
  Triple-if true m n yes_case no_case = yes_case refl
  Triple-if false m n yes_case no_case = no_case refl

  pub Triple-option :
      {B : Type 0} (x : Option B) {m : Process W A} {n : B → Process W A}
      → (x ≡ none → Triple P m Q R)
      → ((b : B) → x ≡ some b → Triple P (n b) Q R)
      → Triple P (elim x [ none ↦ m | some b ↦ n b ]) Q R
  Triple-option none absent there = absent refl
  Triple-option (some b) absent there = there b refl

  pub Triple-pre :
      {P' : W → Type 0} {m : Process W A}
      → ((w : W) → P' w → P w)
      → Triple P m Q R
      → Triple P' m Q R
  Triple-pre h t = record { run = λ w p. t.run w (h w p) }

  -- What the world before shows may be used throughout.
  pub Triple-given : {m : Process W A} → ((w : W) → P w → Triple P m Q R) → Triple P m Q R
  Triple-given h = record { run = λ w p. (h w p).run w p }

  -- The error as a value.
  pub Triple-try :
      (m : Process W A)
      → Triple P m Q R
      → Triple P (try m) (λ x w. elim x [ ok a ↦ Q a w | err e ↦ R w ]) R
  unfolding try
  Triple-try m t = record { run = λ w p. go (m w) (t.run w p) }
    where
      go :
          (x : Ran W A)
          → Ends Q R x
          → Ends (λ y w. elim y [ ok a ↦ Q a w | err e ↦ R w ]) R (caught x)
      go (returned a w) h = h
      go (raised e w) h = h
      go (crashed w) h = h

module _ {W A : Type 0} {P R : W → Type 0} where
  -- A process known by the world it leaves.
  pub left-Triple : (m : Process W A) → ((w : W) → P w → R (left (m w))) → Triple P m (λ _. R) R
  left-Triple m h = record { run = λ w p. go (m w) (h w p) }
    where
      go : (x : Ran W A) → R (left x) → Ends (λ _. R) R x
      go (returned a w) k = k
      go (raised e w) k = k
      go (crashed w) k = k

module _ {W A : Type 0} {P : W → Type 0} {Q Q' : A → W → Type 0} {R R' : W → Type 0} where
  pub Triple-post :
      (m : Process W A)
      → ((a : A) (w : W) → Q a w → Q' a w)
      → ((w : W) → R w → R' w)
      → Triple P m Q R
      → Triple P m Q' R'
  Triple-post m q r t = record { run = λ w p. go (m w) (t.run w p) }
    where
      go : (x : Ran W A) → Ends Q R x → Ends Q' R' x
      go (returned a w) h = q a w h
      go (raised e w) h = r w h
      go (crashed w) h = r w h

module _ {W A : Type 0} where
  pub left-end : (R : W → Type 0) (x : Ran W A) → Ends (λ _. R) R x → R (left x)
  left-end R (returned a w) k = k
  left-end R (raised e w) k = k
  left-end R (crashed w) k = k

module _ {W A B : Type 0} {P : W → Type 0} {Q : A → W → Type 0} {S : B → W → Type 0}
    {R : W → Type 0} where
  pub Triple-bind :
      (m : Process W A) (f : A → Process W B)
      → Triple P m Q R
      → ((a : A) → Triple (Q a) (f a) S R)
      → Triple P (m >>= f) S R
  unfolding after
  Triple-bind m f t rest = record { run = λ w p. go (m w) (t.run w p) }
    where
      go : (x : Ran W A) → Ends Q R x → Ends S R (after x f)
      go (returned a w) h = (rest a).run w h
      go (raised e w) h = h
      go (crashed w) h = h

module _ {W A B : Type 0} {P : A → W → Type 0} {J : W → Type 0} {Q : B → W → Type 0}
    {R : W → Type 0} where
  -- What follows an error that was caught.
  pub Triple-result :
      (x : Result Error A) (m : A → Process W B) (n : Error → Process W B)
      → ((a : A) → Triple (P a) (m a) Q R)
      → ((e : Error) → Triple J (n e) Q R)
      → Triple
          (λ w. elim x [ ok a ↦ P a w | err e ↦ J w ])
          (elim x [ ok a ↦ m a | err e ↦ n e ])
          Q
          R
  Triple-result (ok a) m n h h' = h a
  Triple-result (err e) m n h h' = h' e

module _ {W A B : Type 0} {P : W → Type 0} {Q : A → W → Type 0} {R : W → Type 0} where
  -- Two continuations that agree wherever the first process can return.
  pub bind-same :
      (m : Process W A) {f g : A → Process W B}
      → Triple P m Q R
      → ((a : A) (w : W) → Q a w → f a w ≡ g a w)
      → (w : W) → P w
      → (m >>= f) w ≡ (m >>= g) w
  unfolding after
  bind-same m {f} {g} t agree w p = go (m w) (t.run w p)
    where
      go : (x : Ran W A) → Ends Q R x → after x f ≡ after x g
      go (returned a w') q = agree a w' q
      go (raised e w') q = refl
      go (crashed w') q = refl

-- retry keeps what each failed attempt, each look at the context and each sleep keeps.
module _ {W A : Type 0} (rt : Runtime W) (J : W → Type 0) {Q : A → W → Type 0}
    (asks : Triple J rt.ctx_done (λ _. J) J)
    (sleeps : (d : ℕ) → Triple J (rt.sleep d) (λ _. J) J) where
  after_attempt-Triple :
      (again : Process W A)
      → Triple J again Q J
      → (x : Result Error A)
      → Triple (λ w. elim x [ ok a ↦ Q a w | err e ↦ J w ]) (after_attempt rt again x) Q J
  unfolding after_attempt
  after_attempt-Triple again t (ok a) = Triple-pure a (λ w q. q)
  after_attempt-Triple again t (err e) =
      Triple-if (is_final e) (raise e)
        (rt.ctx_done >>= λ done. if done then raise fence_unavailable else again)
        (λ _. Triple-raise e (λ w j. j))
        (λ _.
          Triple-bind rt.ctx_done (λ done. if done then raise fence_unavailable else again) asks
            (λ done.
              Triple-if done (raise fence_unavailable) again
                (λ _. Triple-raise fence_unavailable (λ w j. j)) (λ _. t)))

  after_sleep-Triple :
      (rest : Process W A)
      → Triple J rest Q J
      → (x : Result Error Unit)
      → Triple (λ w. elim x [ ok a ↦ J w | err e ↦ J w ]) (after_sleep rt rest x) Q J
  unfolding after_sleep
  after_sleep-Triple rest t (ok u) = t
  after_sleep-Triple rest t (err e) = Triple-raise fence_unavailable (λ w j. j)

  retry_loop-Triple :
      (op : Process W A)
      → Triple J op Q J
      → (more backoff : ℕ) → Triple J (retry_loop rt op more backoff) Q J
  unfolding retry_loop
  retry_loop-Triple op t zero backoff =
      Triple-bind (try op) (after_attempt rt (raise fence_unavailable)) (Triple-try op t)
        (after_attempt-Triple (raise fence_unavailable) (Triple-raise fence_unavailable (λ w j. j)))
  retry_loop-Triple op t (suc more) backoff =
      let rest = retry_loop rt op more (next_backoff backoff) in
      let again = try (rt.sleep backoff) >>= after_sleep rt rest in
      Triple-bind (try op) (after_attempt rt again) (Triple-try op t) (
        after_attempt-Triple again (
          Triple-bind (try (rt.sleep backoff)) (after_sleep rt rest)
            (Triple-try (rt.sleep backoff) (sleeps backoff))
            (after_sleep-Triple rest (retry_loop-Triple op t more (next_backoff backoff)))))

  pub retry-Triple : (op : Process W A) → Triple J op Q J → Triple J (retry rt op) Q J
  unfolding retry
  retry-Triple op t = retry_loop-Triple op t (retry_attempts - 1) retry_initial_backoff

  mapped-Triple :
      (x : Result Error A) → Triple (λ w. elim x [ ok a ↦ Q a w | err e ↦ J w ]) (mapped rt x) Q J
  unfolding mapped
  mapped-Triple (ok a) = Triple-pure a (λ w q. q)
  mapped-Triple (err e) = Triple-raise (store_err e) (λ w j. j)

  pub consult-Triple : (op : Process W A) → Triple J op Q J → Triple J (consult rt op) Q J
  unfolding consult
  consult-Triple op t =
      Triple-bind (try (retry rt op)) (mapped rt) (Triple-try (retry rt op) (retry-Triple op t))
        mapped-Triple

module _ {W A B : Type 0} where
  -- What follows may do nothing to the world.
  pub left-after :
      (x : Ran W A) (f : A → Process W B)
      → ((a : A) (w : W) → left (f a w) ≡ w)
      → left (after x f) ≡ left x
  unfolding after
  left-after (returned a w) f h = h a w
  left-after (raised e w) f h = refl
  left-after (crashed w) f h = refl
