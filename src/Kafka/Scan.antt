-- ===== src/Kafka/Scan.antt =====
-- KafkaEventSource.Events (internal/replay/kafka_source.go): the events of a run in its partition.
use durable_agent_execution.Prelude.{
  ℕ, suc, ◌+◌, ◌≡◌, String, Option, none, some, Result, ok, err, List, [], ◌∷◌, ◌++◌, length,
  is_nil, if◌then◌else◌,
}
use durable_agent_execution.Errors.{Error, run_not_found}
use durable_agent_execution.Events.{Envelope}
use durable_agent_execution.Idempotency.Process.{Process, Ran, returned, raised}
use durable_agent_execution.Kafka.{Record, Scanner, scan, event_of, dial_any}

-- A process that ended with this.
abbrev pub give : {W A : Type 0} → Result Error A → W → Ran W A
give (ok a) w = returned a w
give (err e) w = raised e w

-- Offsets count up by one.
abbrev pub IsNumbered : ℕ → List Record → Type 0
IsNumbered n [] = Unit
IsNumbered n (rec ∷ log) = (rec.offset ≡ n) × IsNumbered (suc n) log

module _ {W : Type 0} (scanner : Scanner W) where
  unfoldable pub prepend :
      Option Envelope → Result Error (List Envelope) → Result Error (List Envelope)
  prepend x (err e) = err e
  prepend none (ok es) = ok es
  prepend (some e) (ok es) = ok (e ∷ es)

  unfoldable pub before_rest :
      Result Error (Option Envelope) → Result Error (List Envelope) → Result Error (List Envelope)
  unfolding prepend
  before_rest (err e) rest = err e
  before_rest (ok x) rest = prepend x rest

  -- The run's events among these records, in their order, or the first error of Decode.
  unfoldable pub events_in : String → List Record → Result Error (List Envelope)
  unfolding before_rest
  events_in run_id [] = ok []
  events_in run_id (rec ∷ log) =
      let rest = events_in run_id log in before_rest (event_of scanner run_id rec) rest

  unfoldable pub or_not_found : Result Error (List Envelope) → Result Error (List Envelope)
  or_not_found (err e) = err e
  or_not_found (ok es) = if is_nil es then err run_not_found else ok es

  unfoldable pub extend :
      List Envelope → Result Error (List Envelope) → Result Error (List Envelope)
  extend out (err e) = err e
  extend out (ok es) = ok (out ++ es)

  -- A broker that serves the partition: `rest` is what its reader has not read yet.
  pub record IsServing (p first : ℕ) (log : List Record) (rest : W → List Record) : Type 0 where
    pub dial_answers :
        (last : Error) (w : W)
        → (w' : W) × (dial_any scanner p scanner.brokers last w ≡ returned tt w')
    pub offsets_answer :
        (w : W) → (w' : W) × (scanner.read_offsets p w ≡ returned (first, first + length log) w')
    pub set_answers :
        (w : W) → (w' : W) × (scanner.set_offset p first w ≡ returned tt w') × (rest w' ≡ log)
    pub read_answers :
        (rec : Record) (more : List Record) (w : W)
        → rest w ≡ rec ∷ more
        → (w' : W) × (scanner.read_message p w ≡ returned rec w') × (rest w' ≡ more)

  module _ (p first : ℕ) (log : List Record) (rest : W → List Record)
      (c : IsServing p first log rest) (run_id : String) where
    -- From a record on, the loop adds the run's events among the rest.
    abbrev Scans : ℕ → ℕ → List Record → List Envelope → W → Type 0
    Scans fuel hwm l out w =
        (w' : W) × (scan scanner fuel p hwm run_id out w
          ≡ give (extend out (events_in run_id l)) w')
