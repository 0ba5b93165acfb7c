-- ===== src/Replay/Prefix.antt =====
-- FoldUpTo of internal/replay/replay.go, and the count that scripts/replay/main.go shows with it.
use durable_agent_execution.Replay.Redelivery.{fold_from-append}
use durable_agent_execution.Prelude.Int64.{ℤ, lt_int}
use durable_agent_execution.Replay.State.{Sdk, RunState, empty_state}
use durable_agent_execution.Events.{Envelope}
use durable_agent_execution.Replay.Fold.{fold, fold_from}
use durable_agent_execution.Replay.Source.{up_to, fold_up_to, count_up_to_seq}
use durable_agent_execution.Prelude.{
  ◌≡◌, refl, [], ◌∷◌, List, ◌++◌, length, ok, Bool, arith, if◌then◌else◌, false, ap, >>=-eq-ok,
  true, sym, ◌∙◌,
}

pub up_to-prefix :
    (evs : List Envelope) (n : ℤ) → (rest : List Envelope) × (up_to evs n ++ rest ≡ evs)
unfolding up_to
up_to-prefix [] n = ([], refl)
up_to-prefix (e ∷ evs) n = by_test (lt_int n e.sequence_number) (up_to-prefix evs n)
  where
    by_test :
        (b : Bool)
        → ((rest : List Envelope) × (up_to evs n ++ rest ≡ evs))
        → (rest : List Envelope) × ((if b then [] else e ∷ up_to evs n) ++ rest ≡ e ∷ evs)
    by_test true ih = (e ∷ evs, refl)
    by_test false (rest, same) = (rest, ap (λ es. e ∷ es) same)

pub length-up_to : (evs : List Envelope) (n : ℤ) → length (up_to evs n) ≡ count_up_to_seq evs n
unfolding up_to count_up_to_seq
length-up_to [] n = refl
length-up_to (e ∷ evs) n = ground (arith, length-up_to evs n)

-- For a log that folds and a bound that its first event does not pass, FoldUpTo gives a state: the one
-- that a prefix of the log folds to, of as many events as countUpToSeq counts.
pub fold_up_to-prefix :
    (sdk : Sdk) (e : Envelope) (evs : List Envelope) (s : RunState) (n : ℤ)
    → fold sdk (e ∷ evs) ≡ ok s
    → lt_int n e.sequence_number ≡ false
    → (t : RunState) × (xs : List Envelope) × (ys : List Envelope) × (fold_up_to sdk (e ∷ evs) n
        ≡ ok t)
      × (fold sdk xs ≡ ok t)
      × (xs ++ ys ≡ e ∷ evs)
      × (length xs ≡ count_up_to_seq (e ∷ evs) n)
unfolding fold_up_to fold up_to
fold_up_to-prefix sdk e evs s n h within =
    let (rest, whole) = up_to-prefix evs n in
    let longer : (e ∷ up_to evs n) ++ rest ≡ e ∷ evs = ap (λ es. e ∷ es) whole in
    let (t, first, after_it) =
      >>=-eq-ok (fold_from sdk empty_state (e ∷ up_to evs n)) (λ u. fold_from sdk u rest)
        (sym (fold_from-append sdk empty_state (e ∷ up_to evs n) rest)
          ∙ ap (fold_from sdk empty_state) longer
          ∙ h) in
    let here : up_to (e ∷ evs) n ≡ e ∷ up_to evs n = ground (arith, within) in
    (
      t,
      e ∷ up_to evs n,
      rest,
      ap (fold sdk) here ∙ first,
      first,
      longer,
      ap length (sym here) ∙ length-up_to (e ∷ evs) n,
    )
