-- ===== src/Tests/Consumer.antt =====
-- A partition in memory, with the projector (cmd/projector) and replay's scan on it.
use native.Mathlib.Decide.{ℕ_discrete}
use durable_agent_execution.Prelude.{
  ℕ, zero, suc, ◌==◌, ◌≡◌, refl, Bool, ok, err, Result, List, [], ◌∷◌, inl, inr, arith,
  if◌then◌else◌, ◌⊎◌, ◌≢◌, ◌++◌, length,
}
use durable_agent_execution.Kafka.{dial_any, Writer}
use durable_agent_execution.Idempotency.Process.{left}
use durable_agent_execution.Errors.{Error, message}
use durable_agent_execution.Json.{Bytes, malformed, doc, obj}
use durable_agent_execution.Events.{Envelope}
use durable_agent_execution.Events.Codec.{wire}
use durable_agent_execution.Idempotency.Process.{Ran, returned, raised}
use durable_agent_execution.Store.Projection.{Database, apply_event}
use durable_agent_execution.Projector.{Consumer}
use durable_agent_execution.Projector.Committed.{Watch, IsConsuming, IsComplete, ApplySpec}
use durable_agent_execution.Projector.Lossless.{Start, projectors, projectors-IsComplete}
use durable_agent_execution.Kafka.{Scanner, Record, dial_any}
use durable_agent_execution.Kafka.Published.{publish_all}
use durable_agent_execution.Tests.Journal.{time_text, start, answer}

-- The value of a message.
abbrev message_of : Envelope → Bytes
message_of e = doc (obj (wire time_text e))

abbrev partition_log : ℕ → ℕ → Bytes
partition_log p zero = message_of start
partition_log p (suc zero) = message_of answer
partition_log p _ = malformed

pub record Group : Type 0 where
  pub db : Database
  pub committed : ℕ → ℕ
  pub position : ℕ → ℕ

abbrev set_at : ℕ → ℕ → (ℕ → ℕ) → ℕ → ℕ
set_at p n f q = if q == p then n else f q

abbrev apply_in : Result Error (Database × Bool) → Group → Ran Group Bool
apply_in (ok (db, inserted)) w = returned inserted (record w { db = db })
apply_in (err x) w = raised x w

abbrev member : Consumer Group
member = record {
  text = time_text;
  fetch = λ w.
      returned
        (record { partition = 0; offset = w.position 0; value = partition_log 0 (w.position 0) })
        (record w { position = set_at 0 (suc (w.position 0)) w.position });
  apply_event = λ e w. apply_in (apply_event w.db e) w;
  commit =
      λ m w. returned tt (record w { committed = set_at m.partition (suc m.offset) w.committed });
  wait = λ d w. returned tt w;
}

abbrev watch : Watch Group
watch = record { db = λ w. w.db; committed = λ w. w.committed; position = λ w. w.position }

apply_in-ApplySpec :
    (e : Envelope) (w : Group) (x : Result Error (Database × Bool))
    → apply_event w.db e ≡ x
    → ApplySpec watch time_text partition_log e w (apply_in x w)
apply_in-ApplySpec e w (ok (db, inserted)) is = (is, refl, refl)
apply_in-ApplySpec e w (err x) is = (inl refl, refl, refl)

set_at-moved : (q p n : ℕ) (f : ℕ → ℕ) → (set_at p n f q ≡ f q) ⊎ ((q ≡ p) × (set_at p n f q ≡ n))
set_at-moved q p n f = elim (ℕ_discrete q p) [
  | yes same ↦ inr (same, ground (arith, same))
  | no other ↦ inl (ground (arith, other))
]

set_at-other : (q n : ℕ) (f : ℕ → ℕ) → q ≢ 0 → set_at 0 n f q ≡ f q
set_at-other q n f other = ground (arith, other)

member-IsConsuming : IsConsuming watch time_text partition_log member
member-IsConsuming = record {
  same_text = refl;
  fetch_spec = λ w. (
    refl,
    refl,
    refl,
    λ q other. set_at-other q (suc (w.position 0)) w.position other,
    refl,
    refl,
  );
  apply_spec = λ e w. apply_in-ApplySpec e w (apply_event w.db e) refl;
  commit_moves = λ m w. (refl, refl, λ q. set_at-moved q m.partition (suc m.offset) w.committed);
  wait_aside = λ d w. (refl, refl, refl);
}

abbrev joined : Group → Group
joined w = record w { position = w.committed }

abbrev begun : Group
begun = record { db = record { events = []; runs = [] }; committed = λ p. 0; position = λ p. 0 }

-- One that dies before it commits its first message, and one that goes on until a bad one.
abbrev starts : List (Start watch time_text partition_log)
starts =
    record { consumer = member; rounds = 9; fuel = 3; crash_before = 1 }
    ∷ record { consumer = member; rounds = 9; fuel = 3; crash_before = 0 }
    ∷ []

projectors-IsComplete_example :
    IsComplete watch time_text partition_log
      (projectors watch time_text partition_log joined (λ w. (refl, refl, refl)) starts begun)
projectors-IsComplete_example =
    projectors-IsComplete watch time_text partition_log joined (λ w. (refl, refl, refl)) starts
      begun (member-IsConsuming, (member-IsConsuming, tt))
      (λ p i below. absurd (omega (arith, below)))

-- What a reader of the partition has still to read.
abbrev Unread : Type 0
Unread = List Record

abbrev records : List Record
records =
    record { key = start.run_id; value = message_of start; offset = 0 }
    ∷ record { key = answer.run_id; value = message_of answer; offset = 1 }
    ∷ []

abbrev next_record : Unread → Ran Unread Record
next_record [] = raised (message "no more") []
next_record (rec ∷ more) = returned rec more

abbrev broker : Scanner Unread
broker = record {
  text = time_text;
  balance = λ run_id partitions. 0;
  brokers = "localhost:9092" ∷ [];
  dial_leader = λ b p w. returned tt w;
  read_offsets = λ p w. returned (0, 2) w;
  set_offset = λ p n w. returned tt records;
  read_message = λ p w. next_record w;
}

-- The topic by its partitions, in which partition 0 takes every key.
abbrev Topic : Type 0
Topic = ℕ → List Record

abbrev appended : Record → ℕ → List Record → List Record
appended rec p log = if p == 0 then log ++ record rec { offset = length log } ∷ [] else log

abbrev producer : Writer Topic
producer = record {
  write_messages = λ key value w.
      returned tt (λ p. appended (record { key = key; value = value; offset = 0 }) p (w p));
  dial = λ b w. returned tt w;
  create_topics = λ t n w. returned tt w;
  read_partitions = λ t w. returned [] w;
}

empty_topic : Topic
empty_topic p = []

full_topic : Topic
full_topic = left (publish_all time_text producer (start ∷ answer ∷ []) empty_topic)
