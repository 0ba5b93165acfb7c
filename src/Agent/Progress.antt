-- ===== src/Agent/Progress.antt =====
-- internal/agent/loop.go against internal/replay/fold.go: no event that the loop journals is refused.
use durable_agent_execution.Replay.Seen.{fold-seen}
use durable_agent_execution.Events.RoundTrip.{payload_int, settle}
use durable_agent_execution.Agent.Offers.{
  IsTaken, live_of, inc-fits, response_goes, call_goes, result_goes,
}
use durable_agent_execution.Json.{fits_int64}
use durable_agent_execution.Replay.Gapless.{fold-IsGapless}
use durable_agent_execution.Replay.Transitions.{apply_payload}
use durable_agent_execution.Agent.Drive.{invoked_payload, resulted_payload}
use durable_agent_execution.Agent.Accepted.{
  IsOffered, offers_response, offers_call, offers_result, offers_failure, offers_end, accepted_step,
}
use durable_agent_execution.Agent.Loop.{responded_payload, failed_payload, envelope_for}
use durable_agent_execution.Replay.Actions.{Warrants, is_live, fold-Warrants}
use durable_agent_execution.Replay.Fold.{fold, apply}
use durable_agent_execution.Prelude.Int64.{max_int64}
use durable_agent_execution.Agent.{JournalConfig, Bool, String, ℕ}
use durable_agent_execution.Replay.Terminal.{finish_payload, terminal_payload}
use durable_agent_execution.Replay.State.{Sdk, RunState, StepRecord, NextAction}
use durable_agent_execution.Prelude.{
  ◌≡◌, refl, none, List, ok, Bool, if◌then◌else◌, String, false, ite, ℕ, arith, str_dec, true,
  subst, ap, ◌≢◌, length, ◌∙◌, ◌≤◌, Option-cases, get_last?, inl, inr,
}
use durable_agent_execution.Events.{failed, Envelope, Payload, completed}

-- A payload that ends a run at its current step.
abbrev pub IsEnd : RunState → Payload → Type 0
IsEnd s (completed q) = q.total_steps ≡ s.current_step
IsEnd s (failed q) = q.step ≡ s.current_step
IsEnd s _ = ⊥

IsEnd-if :
    (s : RunState) (b : Bool) (p q : Payload) → IsEnd s p → IsEnd s q → IsEnd s (if b then p else q)
IsEnd-if s true p q hp hq = hp
IsEnd-if s false p q hp hq = hq

IsEnd-ite :
    {A : Type 0} (s : RunState) (d : Dec A) (p q : Payload)
    → IsEnd s p
    → IsEnd s q
    → IsEnd s (ite d p q)
IsEnd-ite s (yes a) p q hp hq = hp
IsEnd-ite s (no n) p q hp hq = hq

finish_payload-IsEnd : (s : RunState) (last : StepRecord) → IsEnd s (finish_payload s last)
unfolding finish_payload
finish_payload-IsEnd s last =
    IsEnd-if s last.is_terminal _ _
      (IsEnd-ite s (str_dec last.stop_reason "max_tokens") (failed _) (completed _) refl refl) refl

terminal_payload-eq-ok :
    (s : RunState) (p : Payload)
    → terminal_payload s ≡ ok p
    → (last : StepRecord) × (s.next_action ≡ NextAction.finish_run) × (finish_payload s last ≡ p)
unfolding terminal_payload
terminal_payload-eq-ok s p h = elim (Option-cases (get_last? s.steps)) [
  | inl start ↦ absurd (ground (arith, h, start))
  | inr (last, l) ↦ (last, ground (arith, h, l), ground (arith, h, l))
]

pub terminal_payload-IsEnd :
    (s : RunState) (p : Payload)
    → terminal_payload s ≡ ok p
    → (s.next_action ≡ NextAction.finish_run) × IsEnd s p
terminal_payload-IsEnd s p h =
    let (last, finishes, same) = terminal_payload-eq-ok s p h in
    (finishes, subst (IsEnd s) same (finish_payload-IsEnd s last))

fits_at_end :
    (s : RunState) (p : Payload)
    → IsEnd s p
    → fits_int64 s.current_step ≡ true
    → fits_int64 (payload_int p) ≡ true
fits_at_end s (completed q) e fits = ap fits_int64 e ∙ fits
fits_at_end s (failed q) e fits = ap fits_int64 e ∙ fits
fits_at_end s _ e fits = absurd e

goes_at_end :
    (sdk : Sdk) (s : RunState) (p : Payload) (at : ℕ) → IsEnd s p → IsTaken sdk s (settle p) at
unfolding apply_payload
goes_at_end sdk s (completed q) at e = refl
goes_at_end sdk s (failed q) at e = refl
goes_at_end sdk s _ at e = absurd e

module _ (sdk : Sdk) (journal : JournalConfig) (s : RunState) where
  offer_live :
      (p : Payload) → Warrants s s.next_action → IsOffered sdk journal s p → is_live s.status ≡ true
  offer_live p w offer = live_of s s.next_action w (busy offer)
    where
      busy : {q : Payload} → IsOffered sdk journal s q → s.next_action ≢ NextAction.nothing
      busy (offers_response resp content a d) e = absurd (cc (a, e))
      busy (offers_call call rest b a d) e = absurd (cc (a, e))
      busy (offers_result call o a d) e = absurd (cc (a, e))
      busy (offers_failure c t b a) e = a e
      busy (offers_end q h) e = absurd (cc ((terminal_payload-IsEnd s q h).0, e))

  offer_fits :
      (p : Payload)
      → fits_int64 s.current_step ≡ true
      → IsOffered sdk journal s p
      → fits_int64 (payload_int p) ≡ true
  unfolding responded_payload invoked_payload resulted_payload failed_payload terminal_payload
      finish_payload
  offer_fits p fits (offers_response resp content a d) = inc-fits s.current_step fits
  offer_fits p fits (offers_call call rest b a d) = fits
  offer_fits p fits (offers_result call o a d) = fits
  offer_fits p fits (offers_failure c t b a) = fits
  offer_fits p fits (offers_end q e) = fits_at_end s q (terminal_payload-IsEnd s q e).1 fits

  offer_goes :
      (p : Payload) (at : ℕ)
      → Warrants s s.next_action
      → IsOffered sdk journal s p
      → IsTaken sdk s (settle p) at
  unfolding failed_payload terminal_payload finish_payload apply_payload
  offer_goes p at w (offers_response resp content a d) =
      response_goes sdk s resp content at (subst (Warrants s) a w) d
  offer_goes p at w (offers_call call rest b a d) =
      call_goes sdk s journal.run_id call rest b at (subst (Warrants s) a w) d
  offer_goes p at w (offers_result call o a d) =
      result_goes sdk s call o at (subst (Warrants s) a w) d
  offer_goes p at w (offers_failure c t b a) = refl
  offer_goes p at w (offers_end q e) = goes_at_end sdk s q at (terminal_payload-IsEnd s q e).1

-- Whatever the loop offers in a state that a log folds to, Apply takes the event that the loop builds
-- of it: for a log shorter than 2 ^ 63 of the run that the loop journals, a current step that is an
-- int64, and a response whose content the SDK decodes again. So the loop never stops at an event of its
-- own.
pub apply-envelope_for :
    (sdk : Sdk) (journal : JournalConfig) (evs : List Envelope) (s : RunState) (p : Payload)
    (id : String) (now : ℕ)
    → fold sdk evs ≡ ok s
    → length evs ≤ max_int64
    → journal.run_id ≡ s.run_id
    → fits_int64 s.current_step ≡ true
    → IsOffered sdk journal s p
    → (apply sdk s (envelope_for journal s p id now)).1 ≡ none
apply-envelope_for sdk journal evs s p id now folded room same fits offer =
    let warranted = fold-Warrants sdk evs s folded in
    accepted_step sdk journal s (fold-IsGapless sdk evs s room folded).0
      (fold-seen sdk evs s folded) same (offer_live sdk journal s p warranted offer) p id now
      (offer_fits sdk journal s p fits offer) (offer_goes sdk journal s p _ warranted offer)
