-- ===== src/Replay/Redelivery.antt =====
-- At-least-once delivery (EC-2 of internal/replay): folding in pieces, and folding a log in which
-- events stand more than once.
use mathlib.Core.List.{append_assoc}
use durable_agent_execution.Errors.{Error}
use mathlib.Core.Logic.{if_pos, if_neg}
use durable_agent_execution.Replay.Gapless.{
  fold_from-cons, fold_from-go, seen-transition, fold_from-stop,
}
use durable_agent_execution.Replay.Outcomes.{outcome, redelivered, refused, accepted}
use durable_agent_execution.Prelude.Dict.{get, get-put}
use durable_agent_execution.Prelude.Int64.{ℤ, int_dec}
use durable_agent_execution.Events.{Envelope}
use durable_agent_execution.Replay.Fold.{fold_from, apply, fold}
use durable_agent_execution.Replay.State.{Sdk, RunState, empty_state}
use durable_agent_execution.Prelude.{
  ◌≡◌, refl, [], ◌∷◌, none, some, List, ◌++◌, ◌>>=◌, String, Option-cases, ok, arith, inl, inr, ◌∙◌,
  ap, Option, >>=-eq-ok, Result-cases, sym, err,
}

pub fold_from_of_fold :
    (sdk : Sdk) (evs : List Envelope) (s : RunState)
    → fold sdk evs ≡ ok s
    → fold_from sdk empty_state evs ≡ ok s
unfolding fold
fold_from_of_fold sdk [] s h = absurd (cc h)
fold_from_of_fold sdk (e ∷ evs) s h = h

module _ (sdk : Sdk) where
  pub fold_from-append :
      (s : RunState) (xs ys : List Envelope)
      → fold_from sdk s (xs ++ ys) ≡ (fold_from sdk s xs >>= λ t. fold_from sdk t ys)
  unfolding fold_from
  fold_from-append s [] ys = refl
  fold_from-append s (e ∷ xs) ys = elim (Option-cases (apply sdk s e).1) [
    | inl go ↦
        rw (fold_from-go sdk s e (xs ++ ys) go, fold_from-go sdk s e xs go)
          (fold_from-append (apply sdk s e).0 xs ys)
    | inr (x, stop) ↦ cc (fold_from-stop sdk s e (xs ++ ys) stop, fold_from-stop sdk s e xs stop)
  ]

  -- What has been applied stays in the record.
  seen-apply :
      (s : RunState) (e : Envelope) (k : ℤ) (id : String)
      → get int_dec s.seen k ≡ some id
      → get int_dec (apply sdk s e).0.seen k ≡ some id
  seen-apply s e k id h = elim (outcome sdk s e) [
    | redelivered known result ↦ rw result h
    | refused x result ↦ rw result h
    | accepted next fresh check step result ↦
        rw
          (
            result,
            seen-transition sdk s e step,
            get-put int_dec s.seen e.sequence_number k e.event_id,
          )
          (elim (int_dec e.sequence_number k) [
            | yes p ↦ absurd (cc (ap (get int_dec s.seen) p, fresh, h))
            | no n ↦ rw (if_neg _ n) h
          ])
  ]

  -- An event that was taken is in the record.
  pub seen-apply_self :
      (s : RunState) (e : Envelope)
      → (apply sdk s e).1 ≡ none
      → get int_dec (apply sdk s e).0.seen e.sequence_number ≡ some e.event_id
  seen-apply_self s e h = elim (outcome sdk s e) [
    | redelivered known result ↦ rw result known
    | refused x result ↦ absurd (cc (result, h))
    | accepted next fresh check step result ↦
        rw
          (
            result,
            seen-transition sdk s e step,
            get-put int_dec s.seen e.sequence_number e.sequence_number e.event_id,
          )
          (rw (if_pos _ refl) refl)
  ]

  seen-fold_from :
      (s t : RunState) (evs : List Envelope) (k : ℤ) (id : String)
      → get int_dec s.seen k ≡ some id
      → fold_from sdk s evs ≡ ok t
      → get int_dec t.seen k ≡ some id
  unfolding fold_from
  seen-fold_from s t [] k id h r = ground arith
  seen-fold_from s t (e ∷ evs) k id h r =
      seen-fold_from (apply sdk s e).0 t evs k id (seen-apply s e k id h)
        (fold_from-cons sdk s t e evs r).1

  pub apply_known :
      (s : RunState) (e : Envelope)
      → get int_dec s.seen e.sequence_number ≡ some e.event_id
      → apply sdk s e ≡ (s, none)
  unfolding apply
  apply_known s e h = ground arith

  -- After a fold that took `e`, a second `e` changes nothing.
  fold_from-known :
      (s : RunState) (e : Envelope) (evs : List Envelope)
      → get int_dec s.seen e.sequence_number ≡ some e.event_id
      → fold_from sdk s (e ∷ evs) ≡ fold_from sdk s evs
  fold_from-known s e evs h =
      fold_from-go sdk s e evs (cc (apply_known s e h))
      ∙ ap (λ (r : RunState × Option Error). fold_from sdk r.0 evs) (apply_known s e h)

  fold_from-ok-seen :
      (xs ys : List Envelope) (e : Envelope) (s t : RunState)
      → fold_from sdk s (xs ++ e ∷ ys) ≡ ok t
      → get int_dec t.seen e.sequence_number ≡ some e.event_id
  fold_from-ok-seen xs ys e s t h =
      let (u, before, after) =
        >>=-eq-ok (fold_from sdk s xs) (λ v. fold_from sdk v (e ∷ ys))
          (sym (fold_from-append s xs (e ∷ ys)) ∙ h) in
      let (go, rest) = fold_from-cons sdk u t e ys after in
      seen-fold_from (apply sdk u e).0 t ys e.sequence_number e.event_id (seen-apply_self u e go)
        rest

  fold_from-redelivery :
      (xs ys zs : List Envelope) (e : Envelope) (s : RunState)
      → fold_from sdk s (xs ++ e ∷ ys ++ e ∷ zs) ≡ fold_from sdk s (xs ++ e ∷ ys ++ zs)
  fold_from-redelivery xs ys zs e s = elim (Result-cases (fold_from sdk s (xs ++ e ∷ ys))) [
    | inl (t, went) ↦
        rw (fold_from-append s (xs ++ e ∷ ys) (e ∷ zs), fold_from-append s (xs ++ e ∷ ys) zs, went)
          (fold_from-known t e zs (fold_from-ok-seen xs ys e s t went))
    | inr (x, stopped) ↦
        rw
          (
            fold_from-append s (xs ++ e ∷ ys) (e ∷ zs),
            fold_from-append s (xs ++ e ∷ ys) zs,
            stopped,
          )
          refl
  ]

  pub fold_from-snoc :
      (s t u : RunState) (evs : List Envelope) (e : Envelope)
      → fold_from sdk s evs ≡ ok t
      → apply sdk t e ≡ (u, none)
      → fold_from sdk s (evs ++ e ∷ []) ≡ ok u
  unfolding fold_from
  fold_from-snoc s t u evs e h taken =
      fold_from-append s evs (e ∷ [])
      ∙ ap (λ x. x >>= λ v. fold_from sdk v (e ∷ [])) h
      ∙ ap (λ (r : RunState × Option Error). elim r.1 [ none ↦ ok r.0 | some x ↦ err x ]) taken

  fold-append_cons :
      (xs ys : List Envelope) (e : Envelope)
      → fold sdk (xs ++ e ∷ ys) ≡ fold_from sdk empty_state (xs ++ e ∷ ys)
  unfolding fold
  fold-append_cons [] ys e = refl
  fold-append_cons (x ∷ xs) ys e = refl

  -- A log that holds an event twice folds to what the log without the second copy folds to, in
  -- whatever place the copy stands, and with the same error if it does not fold.
  pub redelivery :
      (xs ys zs : List Envelope) (e : Envelope)
      → fold sdk (xs ++ e ∷ (ys ++ e ∷ zs)) ≡ fold sdk (xs ++ e ∷ (ys ++ zs))
  redelivery xs ys zs e =
      fold-append_cons xs (ys ++ e ∷ zs) e
      ∙ rw (← append_assoc xs (e ∷ ys) (e ∷ zs), ← append_assoc xs (e ∷ ys) zs)
          (fold_from-redelivery xs ys zs e empty_state)
      ∙ sym (fold-append_cons xs (ys ++ zs) e)
