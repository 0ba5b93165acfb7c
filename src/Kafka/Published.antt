-- ===== src/Kafka/Published.antt =====
-- What EventPublisher.Publish (internal/kafka/publisher.go) writes is what KafkaEventSource
-- (internal/replay/kafka_source.go) reads.
use durable_agent_execution.Kafka.Scan.{IsNumbered, events_in}
use durable_agent_execution.Events.{Envelope}
use durable_agent_execution.Json.{Bytes}
use durable_agent_execution.Events.Codec.{TimeText}
use durable_agent_execution.Kafka.{
  Record, Scanner, Writer, partition_for, run_events_partitions, publish, balance_by_partition_for,
  partition_indices, String, TimeText, Bool, List, ℕ, Bytes, Envelope, ◌∷◌, true, false, [], ok,
  suc,
}
use durable_agent_execution.Kafka.Reading.{of_run}
use durable_agent_execution.Idempotency.Process.{Process, returned, pure, ◌>>=◌}
use durable_agent_execution.Prelude.{
  length, String, Bool, List, ℕ, ◌≡◌, ◌++◌, if◌then◌else◌, ◌∷◌, true, false, ◌==◌, [], ok, suc,
}

-- The partition that the writer's balancer gives a key of the topic.
abbrev pub home : (String → List ℕ → ℕ) → String → ℕ
home balance key = balance_by_partition_for balance key (partition_indices run_events_partitions)

-- Kafka as far as the writer sees it: an acknowledged write appends its message once, to the partition
-- that the balancer chooses, with the next offset.
pub record IsBroker {W : Type 0} (balance : String → List ℕ → ℕ) (writer : Writer W)
    (logs : W → ℕ → List Record) : Type 0 where
  pub write_spec :
      (key : String) (value : Bytes) (w w' : W)
      → writer.write_messages key value w ≡ returned tt w'
      → (p : ℕ)
      → logs w' p ≡ (
          if p == home balance key
          then logs w p ++ record { key = key; value = value; offset = length (logs w p) } ∷ []
          else logs w p)

module _ {W : Type 0} (text : TimeText) (writer : Writer W) where
  -- Publishes one envelope after another, as long as each is acknowledged.
  unfoldable pub publish_all : List Envelope → Process W (Unit {0})
  publish_all [] = pure tt
  publish_all (e ∷ es) = publish text writer e >>= λ t. publish_all es

module _ {W V : Type 0} (writer : Writer W) (logs : W → ℕ → List Record) (scanner : Scanner V)
    (b : IsBroker scanner.balance writer logs) (run_id : String) where
  abbrev p : ℕ
  p = partition_for scanner.balance run_id run_events_partitions

  -- What publishing has added to the run's partition.
  abbrev Added : List Envelope → W → W → Type 0
  Added es w w' =
      (recs : List Record) × (logs w' p ≡ logs w p ++ recs)
      × IsNumbered (length (logs w p)) recs
      × (events_in scanner run_id recs ≡ ok (of_run run_id es))
