-- ===== src/Kafka.antt =====
-- internal/kafka/partition.go, publisher.go and topics.go, and internal/replay/kafka_source.go. The
-- client (kafka-go) and its hash are parameters.
pub mod Scan
pub mod Reading
pub mod Published
use durable_agent_execution.Prelude.{
  ℕ, zero, suc, ◌+◌, ◌-◌, ◌==◌, leb, String, Bool, true, false, Option, none, some, Result, ok, err,
  if◌then◌else◌, str_dec, ite, List, [], ◌∷◌, ◌++◌, length, is_nil,
}
use durable_agent_execution.Errors.{Error, message, run_not_found}
use durable_agent_execution.Json.{Bytes}
use durable_agent_execution.Events.{Envelope}
use durable_agent_execution.Events.Codec.{TimeText, decode, encode}
use durable_agent_execution.Idempotency.Process.{Process, pure, raise, try, ◌>>=◌}

abbrev pub topic_run_events : String
topic_run_events = "run-events"

abbrev pub run_events_partitions : ℕ
run_events_partitions = 6

-- The loop of partitionIndices, from i on.
unfoldable pub indices_from : ℕ → ℕ → List ℕ
indices_from zero i = []
indices_from (suc n) i = i ∷ indices_from n (suc i)

unfoldable pub partition_indices : ℕ → List ℕ
partition_indices n = indices_from n 0

-- A record of a partition.
pub record Record : Type 0 where
  pub key : String
  pub value : Bytes
  pub offset : ℕ

module _ (balance : String → List ℕ → ℕ) where
  unfoldable pub partition_for : String → ℕ → ℕ
  partition_for run_id n = balance run_id (partition_indices n)

  unfoldable pub balance_by_partition_for : String → List ℕ → ℕ
  balance_by_partition_for key partitions = partition_for key (length partitions)

-- A Writer, and an admin connection.
pub record Writer (W : Type 0) : Type 0 where
  pub write_messages : String → Bytes → Process W (Unit {0})
  pub dial : String → Process W (Unit {0})
  pub create_topics : String → ℕ → Process W (Unit {0})
  pub read_partitions : String → Process W (List ℕ)

module _ {W : Type 0} (text : TimeText) (writer : Writer W) where
  unfoldable pub publish : Envelope → Process W (Unit {0})
  publish e = elim (encode text e) [ err x ↦ raise x | ok b ↦ writer.write_messages e.run_id b ]

  unfoldable pub check_partitions : List ℕ → Process W (Unit {0})
  check_partitions partitions =
      if length partitions == run_events_partitions
      then pure tt
      else raise (message "topic run-events has another number of partitions")

  unfoldable pub ensure_topics : List String → Process W (Unit {0})
  ensure_topics [] = raise (message "ensuring topics: no brokers configured")
  ensure_topics (broker ∷ brokers) = writer.dial broker >>= λ t.
      writer.create_topics topic_run_events run_events_partitions >>= λ t.
      writer.read_partitions topic_run_events >>= check_partitions

-- What KafkaEventSource uses: a connection to a partition's leader, and a Reader of the partition.
pub record Scanner (W : Type 0) : Type 0 where
  pub text : TimeText
  pub balance : String → List ℕ → ℕ
  pub brokers : List String
  pub dial_leader : String → ℕ → Process W (Unit {0})
  -- the first offset and the high watermark
  pub read_offsets : ℕ → Process W (ℕ × ℕ)
  pub set_offset : ℕ → ℕ → Process W (Unit {0})
  pub read_message : ℕ → Process W Record

module _ {W : Type 0} (scanner : Scanner W) where
  -- Every broker in turn, until one answers.
  unfoldable pub dial_any : ℕ → List String → Error → Process W (Unit {0})
  dial_any partition [] last = raise last
  dial_any partition (broker ∷ brokers) last =
      let rest = dial_any partition brokers in
      try (scanner.dial_leader broker partition) >>= λ x. elim x [ ok t ↦ pure tt | err e ↦ rest e ]

  -- The event of a message, if its key is the run's.
  unfoldable pub event_of : String → Record → Result Error (Option Envelope)
  event_of run_id msg =
      ite (str_dec msg.key run_id)
        (elim (decode scanner.text msg.value) [ err e ↦ err e | ok env ↦ ok (some env) ]) (ok none)

  unfoldable pub append_event : List Envelope → Option Envelope → List Envelope
  append_event out none = out
  append_event out (some env) = out ++ env ∷ []

  unfoldable pub after_event :
      (List Envelope → Process W (List Envelope))
      → ℕ
      → Record
      → List Envelope
      → Result Error (Option Envelope)
      → Process W (List Envelope)
  after_event more hwm msg out (err e) = raise e
  after_event more hwm msg out (ok x) =
      if leb (hwm - 1) msg.offset then pure (append_event out x) else more (append_event out x)

  -- The loop, on fuel: each message is at a higher offset, so that hwm - first rounds are enough.
  unfoldable pub scan : ℕ → ℕ → ℕ → String → List Envelope → Process W (List Envelope)
  scan zero partition hwm run_id out = raise (message "out of fuel")
  scan (suc fuel) partition hwm run_id out =
      let more = scan fuel partition hwm run_id in
      scanner.read_message partition >>= λ msg. after_event more hwm msg out (event_of run_id msg)

  unfoldable pub found : List Envelope → Process W (List Envelope)
  found out = if is_nil out then raise run_not_found else pure out

  unfoldable pub scan_range : ℕ → String → ℕ × ℕ → Process W (List Envelope)
  scan_range partition run_id (first, hwm) =
      if hwm == first
      then raise run_not_found
      else (scanner.set_offset partition first >>= λ t.
          scan (hwm - first) partition hwm run_id [] >>= found)

  -- KafkaEventSource.Events
  unfoldable pub kafka_events : String → Process W (List Envelope)
  kafka_events run_id =
      let partition = partition_for scanner.balance run_id run_events_partitions in
      dial_any partition scanner.brokers (message "no broker") >>= λ t.
      scanner.read_offsets partition >>= scan_range partition run_id
