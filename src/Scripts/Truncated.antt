-- ===== src/Scripts/Truncated.antt =====
-- What scripts/replay/main.go shows: as many events as it says, and the state of just these.
use durable_agent_execution.Prelude.Int64.{ℤ, lt_int, pos}
use durable_agent_execution.Events.{Envelope}
use durable_agent_execution.Errors.{Error}
use durable_agent_execution.Prelude.{
  List, ℕ, ◌≡◌, Result, ◌++◌, some, length, ok, err, refl, arith, inl, [], inr, sym, Bool-cases,
  String, ◌∙◌, str_dec, ap, some-injective,
}
use durable_agent_execution.Scripts.Replay.{
  build_event_source, Report, failed_report, printed, report, report_events, report_from,
  replay_run,
}
use durable_agent_execution.Replay.Prefix.{up_to-prefix, length-up_to}
use mathlib.Core.List.{append-nil}
use mathlib.Core.Logic.{if_neg}
use durable_agent_execution.Replay.Source.{EventSource, fold_up_to, count_up_to_seq, up_to}
use durable_agent_execution.Replay.Fold.{fold}
use durable_agent_execution.Replay.State.{Sdk, RunState}

module _ (sdk : Sdk) (print_state : ℕ → RunState → Result Error (Unit {0})) (n : ℕ)
    (s : RunState) where
  -- The first n of these events fold to the state.
  abbrev pub IsPrefixFold : List Envelope → Type 0
  IsPrefixFold evs =
      (xs : List Envelope) × (ys : List Envelope) × (xs ++ ys ≡ evs)
      × (length xs ≡ n)
      × (fold sdk xs ≡ ok s)

  printed-shown :
      (m : ℕ) (t : RunState) (x : Result Error Unit)
      → (printed sdk print_state m t x).shown ≡ some (m, t)
  unfolding printed
  printed-shown m t (ok done) = refl
  printed-shown m t (err x) = refl

  report-shown :
      (m : ℕ) (x : Result Error RunState)
      → (report sdk print_state m x).shown ≡ some (n, s)
      → (m ≡ n) × (x ≡ ok s)
  unfolding report printed failed_report
  report-shown m (err x) h = absurd (cc h)
  report-shown m (ok t) h =
      let both : some (m, t) ≡ some (n, s) = sym (printed-shown m t (print_state m t)) ∙ h in
      (ap (λ x. x.0) (some-injective both), ap (λ x. ok x.1) (some-injective both))

  events-shown :
      (up_to_seq : ℤ) (evs : List Envelope)
      → (report_events sdk print_state up_to_seq (ok evs)).shown ≡ some (n, s)
      → IsPrefixFold evs
  unfolding report_events fold_up_to
  events-shown up_to_seq evs h = elim (Bool-cases (lt_int up_to_seq (pos 0))) [
    | inl whole ↦
        let (count, folded) = report-shown (length evs) (fold sdk evs) (ground (arith, h, whole)) in
        (evs, [], append-nil evs, count, folded)
    | inr bounded ↦
        let (count, folded) =
          report-shown (count_up_to_seq evs up_to_seq) (fold sdk (up_to evs up_to_seq))
            (ground (arith, h, bounded)) in
        let (rest, whole) = up_to-prefix evs up_to_seq in
        (up_to evs up_to_seq, rest, whole, length-up_to evs up_to_seq ∙ count, folded)
  ]

  read-shown :
      (up_to_seq : ℤ) (x : Result Error (List Envelope))
      → (report_events sdk print_state up_to_seq x).shown ≡ some (n, s)
      → (evs : List Envelope) × (x ≡ ok evs) × IsPrefixFold evs
  unfolding report_events failed_report
  read-shown up_to_seq (err x) h = absurd (cc h)
  read-shown up_to_seq (ok evs) h = (evs, refl, events-shown up_to_seq evs h)

  source-shown :
      (run_id : String) (up_to_seq : ℤ) (x : Result Error EventSource)
      → (report_from sdk print_state run_id up_to_seq x).shown ≡ some (n, s)
      → (src : EventSource) × (evs : List Envelope) × (x ≡ ok src)
        × (src run_id ≡ ok evs)
        × IsPrefixFold evs
  unfolding report_from
  source-shown run_id up_to_seq (err x) h = absurd (cc h)
  source-shown run_id up_to_seq (ok src) h =
      let (evs, given, prefix) = read-shown up_to_seq (src run_id) h in
      (src, evs, refl, given, prefix)

  -- When the replay command shows so many events and a state, then the source that it was told to use
  -- has these events of the run, and the state is the one that the first so many of them fold to.
  pub replay_run-shown :
      (kafka : EventSource) (postgres : Result Error EventSource) (run_id source : String)
      (up_to_seq : ℤ)
      → (replay_run sdk print_state kafka postgres run_id source up_to_seq).shown ≡ some (n, s)
      → (src : EventSource) × (evs : List Envelope) × (build_event_source kafka postgres source
          ≡ ok src)
        × (src run_id ≡ ok evs)
        × IsPrefixFold evs
  unfolding replay_run
  replay_run-shown kafka postgres run_id source up_to_seq h = elim (str_dec run_id "") [
    | yes absent ↦ absurd (ground (arith, h, absent))
    | no given ↦
        source-shown run_id up_to_seq (build_event_source kafka postgres source)
          (sym (ap (λ (r : Report). r.shown) (if_neg (str_dec run_id "") given _ _)) ∙ h)
  ]
