-- ===== src/Replay/Gapless.antt =====
-- The record of applied events (RunState.seen and NextSequence of internal/replay): sequence numbers
-- from 0 without a gap, and a redelivery that changes nothing.
use durable_agent_execution.Errors.{Error}
use durable_agent_execution.Replay.Outcomes.{
  transition-eq-ok, apply_payload-SameRecord, structural_error-eq-none, finish-SameRecord, outcome,
  redelivered, refused, accepted,
}
use durable_agent_execution.Events.{Envelope}
use durable_agent_execution.Prelude.Int64.{pos, inc, int_dec, max_int64, negsuc, ℤ, inc-pos}
use durable_agent_execution.Replay.Fold.{
  with_ids, transition, structural_error, apply, fold_from, fold,
}
use durable_agent_execution.Prelude.Dict.{get, put, length-put, get-put}
use durable_agent_execution.Replay.State.{RunState, Sdk, empty_state}
use durable_agent_execution.Prelude.{
  ◌≡◌, length, arith, ℕ, ok, ◌<◌, none, ◌≢◌, ap, ◌≤◌, inl, inr, List, suc, ◌∙◌, refl, is_nil, ite,
  true, some, ◌∷◌, sym, [], Option-cases, ◌+◌, err, subst,
}

-- The record holds exactly the sequence numbers below its length, and the next one is expected.
pub record IsGapless (s : RunState) : Type 0 where
  pub next_is_length : s.next_sequence ≡ pos (length s.seen)
  pub below : (k : ℕ) → k < length s.seen → get int_dec s.seen (pos k) ≢ none
  pub above : (k : ℕ) → length s.seen ≤ k → get int_dec s.seen (pos k) ≡ none
  pub negative : (k : ℕ) → get int_dec s.seen (negsuc k) ≡ none

length_of_is_nil : {A : Type 0} (xs : List A) → is_nil xs ≡ true → length xs ≡ 0
length_of_is_nil [] h = refl
length_of_is_nil (x ∷ xs) h = cc

pub empty-IsGapless : IsGapless empty_state
unfolding get
empty-IsGapless = record {
  next_is_length = refl;
  below = λ k h. absurd (omega arith);
  above = λ k h. refl;
  negative = λ k. refl;
}

with_ids-SameRecord : (s : RunState) (e : Envelope) → (with_ids s s e).seen ≡ s.seen
unfolding with_ids
with_ids-SameRecord s e = ground arith

module _ (sdk : Sdk) (s : RunState) (e : Envelope) {next : RunState}
    (ok_step : transition sdk s e ≡ ok next) where
  -- What an accepted event adds to the record.
  pub seen-transition : next.seen ≡ put int_dec s.seen e.sequence_number e.event_id
  seen-transition =
      let (payload, mid, decoded, step, last) = transition-eq-ok sdk s e ok_step in
      let same = apply_payload-SameRecord sdk (with_ids s s e) mid payload e.occurred_at step in
      cc (
        ap (λ (t : RunState). t.seen) last,
        (finish-SameRecord mid e).0,
        same.seen,
        with_ids-SameRecord s e,
      )

  next_sequence-transition : next.next_sequence ≡ inc e.sequence_number
  next_sequence-transition =
      let (payload, mid, decoded, step, last) = transition-eq-ok sdk s e ok_step in
      cc (ap (λ (t : RunState). t.next_sequence) last, (finish-SameRecord mid e).1)

  -- The event that is accepted has the next sequence number.
  pub seq-transition :
      IsGapless s → structural_error s e ≡ none → e.sequence_number ≡ s.next_sequence
  seq-transition g h = elim (structural_error-eq-none s e h) [
    | inl (empty, zero_seq, kind) ↦ ground (arith, length_of_is_nil s.seen)
    | inr (more, same, alive, expected) ↦ expected
  ]

  module _ (g : IsGapless s) (at : e.sequence_number ≡ pos (length s.seen))
      (added : next.seen ≡ put int_dec s.seen e.sequence_number e.event_id) where
    read_seen :
        (j : ℤ)
        → get int_dec next.seen j
          ≡ ite (int_dec (pos (length s.seen)) j) (some e.event_id) (get int_dec s.seen j)
    read_seen j = cc (
      ap (λ m. get int_dec m j) added,
      get-put int_dec s.seen e.sequence_number j e.event_id,
      ap (λ q. ite (int_dec q j) (some e.event_id) (get int_dec s.seen j)) at,
    )

    read_below : (k : ℕ) → k < suc (length s.seen) → get int_dec next.seen (pos k) ≢ none
    read_below k lt none_there = ground (arith, read_seen (pos k), g.below k)

    read_above : (k : ℕ) → suc (length s.seen) ≤ k → get int_dec next.seen (pos k) ≡ none
    read_above k le = ground (arith, read_seen (pos k), g.above k)

    read_negative : (k : ℕ) → get int_dec next.seen (negsuc k) ≡ none
    read_negative k = ground (arith, read_seen (negsuc k), g.negative k)

  pub transition-IsGapless :
      IsGapless s
      → structural_error s e ≡ none
      → get int_dec s.seen e.sequence_number ≡ none
      → length s.seen < max_int64
      → IsGapless next
  transition-IsGapless g h fresh room =
      let n : ℕ = length s.seen in
      let at : e.sequence_number ≡ pos n = seq-transition g h ∙ g.next_is_length in
      let added : next.seen ≡ put int_dec s.seen e.sequence_number e.event_id = seen-transition in
      let longer : length next.seen ≡ suc n =
        ap length added ∙ length-put int_dec s.seen e.sequence_number e.event_id fresh in
      record {
        next_is_length =
            next_sequence-transition ∙ ap inc at ∙ inc-pos n room ∙ sym (ap pos longer);
        below = λ k lt. read_below g at added k (omega (arith, longer));
        above = λ k le. read_above g at added k (omega (arith, longer));
        negative = λ k. read_negative g at added k;
      }

module _ (sdk : Sdk) where
  pub apply-IsGapless :
      (s : RunState) (e : Envelope)
      → IsGapless s
      → length s.seen < max_int64
      → IsGapless (apply sdk s e).0 × (length (apply sdk s e).0.seen ≤ suc (length s.seen))
  apply-IsGapless s e g room = elim (outcome sdk s e) [
    | redelivered known result ↦ rw result (g, omega arith)
    | refused x result ↦ rw result (g, omega arith)
    | accepted next fresh check step result ↦ rw result (
      transition-IsGapless sdk s e step g check fresh room,
      omega (
        arith,
        ap length (seen-transition sdk s e step),
        length-put int_dec s.seen e.sequence_number e.event_id fresh,
      ),
    )
  ]

  -- One round of the fold.
  pub fold_from-go :
      (s : RunState) (e : Envelope) (evs : List Envelope)
      → (apply sdk s e).1 ≡ none
      → fold_from sdk s (e ∷ evs) ≡ fold_from sdk (apply sdk s e).0 evs
  unfolding fold_from
  fold_from-go s e evs h = ground arith

  pub fold_from-stop :
      (s : RunState) (e : Envelope) (evs : List Envelope) {x : Error}
      → (apply sdk s e).1 ≡ some x
      → fold_from sdk s (e ∷ evs) ≡ err x
  unfolding fold_from
  fold_from-stop s e evs h = ground arith

  pub fold_from-cons :
      (s t : RunState) (e : Envelope) (evs : List Envelope)
      → fold_from sdk s (e ∷ evs) ≡ ok t
      → ((apply sdk s e).1 ≡ none) × (fold_from sdk (apply sdk s e).0 evs ≡ ok t)
  fold_from-cons s t e evs h = elim (Option-cases (apply sdk s e).1) [
    | inl go ↦ (go, sym (fold_from-go s e evs go) ∙ h)
    | inr (x, stop) ↦ absurd (cc (fold_from-stop s e evs stop))
  ]

  fold_from-IsGapless :
      (s t : RunState) (evs : List Envelope)
      → IsGapless s
      → length s.seen + length evs ≤ max_int64
      → fold_from sdk s evs ≡ ok t
      → IsGapless t × (length t.seen ≤ length s.seen + length evs)
  unfolding fold_from
  fold_from-IsGapless s t [] g room h =
      let same : s ≡ t = cc in
      (subst IsGapless same g, omega (arith, ap (λ (u : RunState). length u.seen) same))
  fold_from-IsGapless s t (e ∷ evs) g room h =
      let (go, rest) = fold_from-cons s t e evs h in
      let (g', grown) = apply-IsGapless s e g (omega arith) in
      let (done, bound) = fold_from-IsGapless (apply sdk s e).0 t evs g' (omega arith) rest in
      (done, omega arith)

  -- A run that folds has applied sequence numbers 0 to n - 1, each one once, with n at most the
  -- number of events, and expects n next (as long as the log is shorter than 2 ^ 63).
  pub fold-IsGapless :
      (evs : List Envelope) (s : RunState)
      → length evs ≤ max_int64
      → fold sdk evs ≡ ok s
      → IsGapless s × (length s.seen ≤ length evs)
  unfolding fold
  fold-IsGapless [] s room h = cc
  fold-IsGapless (e ∷ evs) s room h =
      let (gapless, bound) =
        fold_from-IsGapless empty_state s (e ∷ evs) empty-IsGapless (omega arith) h in
      (gapless, omega arith)
