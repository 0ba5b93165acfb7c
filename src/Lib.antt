-- ===== src/Lib.antt =====
-- Model of the durable agent execution runtime: workers that run an agent's task, journal every
-- step to Kafka before they act on it, rebuild a run from its journal after a crash, and fence
-- each side-effecting tool with a record in Redis.
--
-- The parts, and how they interact:
--
-- - internal/agent/loop.go (Agent, Agent/Loop, Agent/Drive) asks the state for its next action,
--   builds an event for it, publishes the event, and applies it. `publish_apply_print` is
--   publishApplyPrint, `drive` is drive, and each handler has the name of its Go method in
--   snake_case. cmd/worker/main.go (Worker) decides where a worker starts and with which code it
--   exits.
-- - internal/replay (Replay) folds a journal into a RunState: `apply` and `fold` are Apply and
--   Fold, Replay/Transitions has the transition of each payload, Replay/Derived the pending calls,
--   the call in flight and the next action, Replay/Messages and Replay/Terminal what the model and
--   the end of a run are shown. A pointer into a slice of steps is a write back of its last
--   element, a Go map is an association list without a second entry of a key, and the copies that
--   Go makes before it writes (Replay/Clone) are equal to what they copy.
-- - internal/events (Events) has the payloads and the envelope: Events/Payloads is the JSON of
--   each payload and Events/Codec NewEnvelope, Encode and Decode, over the values of Json. Json
--   models what encoding/json does with them: case-folded names, null, int64 literals, the last of
--   two equal keys.
-- - internal/idempotency (Idempotency) is the fence: Idempotency/Claims and Idempotency/Guard are
--   guard.go, and Idempotency/Retry is retry.go. A process acts on a world and returns, fails with
--   a Go error, or dies (Idempotency/Process): what it did before stays done. Idempotency/Contract
--   states what the Guard relies on: the Store's comments, records that live for the TTL from
--   their write on, the clock, fresh uuids, and the contract of a tool.
-- - internal/idempotency/store.go (Idempotency/Redis) is RedisStore: its records
--   (Idempotency/Redis/Values), what its three commands do to a server that keeps a value for the
--   TTL of its SET and may drop it after that, and its Claim against the contract
--   (Idempotency/Redis/Refines), and what becomes of a resolved record
--   (Idempotency/Redis/Resolved). Idempotency/Crash is crash.go, and Idempotency/Key is key.go,
--   with canonicalJSON in Json/Canonical: Json/SameValue and Json/Equivalence say which values
--   have one canonical form.
-- - internal/tools (Tools) has the interfaces and the registry of tool.go, Tools/Definitions what
--   the model is told of the tools (Tools/Deterministic is about it); Tools/Ledger is ledger.go,
--   Tools/Mocks the mock tools and their delay, over Tools/Host, the file and the timer that they
--   use. Tools/Written, Tools/Recorded, Tools/Executing and Tools/Effects follow a ledger through
--   a call, and Tools/Fenced puts the Guard, RedisStore and open_pr together.
-- - internal/kafka and internal/replay/kafka_source.go (Kafka) choose the partition of a run,
--   publish an event there and read a run back: Kafka/Scan and Kafka/Reading say what is read, and
--   Kafka/Published puts the publisher and the reader together.
-- - internal/store (Store) projects the journal into the tables events and runs: Store/Projection
--   is mapping.go and ApplyEvent of projection.go, for a database that answers. Store/Reader is
--   EventReader of reader.go, and Store/Firsts and Store/CrossCheck compare it with the journal;
--   Store/Again is about redelivery. cmd/projector/main.go (Projector) feeds it from Kafka and
--   commits offsets: Projector/Known, Projector/Committed and Projector/Lossless follow them
--   through crashes and failures, and Projector/Recovers through an outage of the database.
-- - cmd/worker/config.go (Worker/Config) reads a worker's settings; Worker/Margin is about what
--   they mean for the fence. scripts/effects/main.go (Scripts) counts duplicated effects in a
--   ledger, and scripts/replay/main.go (Scripts/Replay) shows the state of a run from either
--   source; Scripts/Truncated is about what it shows.
--
-- Numbers: Go's int and int64 are `ℤ` over native numbers, of which `inc` wraps at 2 ^ 63 - 1; a
-- time is a number of nanoseconds. Fuel: `wait_until_settled` polls until a claim is settled or
-- stale, so that one round for each poll interval before that moment is enough; `drive` takes one
-- round for each event or two that it journals; `kafka_events` reads as many messages as lie
-- between the first offset and the high watermark; `consume_loop` and `apply_with_retry` loop for
-- ever in the source, so what is proved of them holds after every number of rounds; %d prints at
-- most 20 digits.
--
-- Parameters: the clients of Kafka (kafka-go: a writer, a reader, a connection and the hash of a
-- key), Redis, Postgres and Anthropic, the package os and the timers that the mock tools use, the
-- parser of a uuid and of a duration, SHA-256, what JSONB gives back of a payload, the text of a
-- time and of a JSON value.
--
-- Not modelled: the lines that are printed and the digest in them, contexts except as a clock that
-- may end a wait, what a failed transaction of Postgres leaves (it is rolled back), values that a
-- column refuses (an id that is no UUID, a step beyond 32 bits), the schema of a tool, the wiring
-- of clients and signals in the commands, and the scripts that only print.
pub mod Prelude
pub mod Json
pub mod Errors
pub mod Events
pub mod Replay
pub mod Tools
pub mod Idempotency
pub mod Agent
pub mod Worker
pub mod Store
pub mod Projector
pub mod Kafka
pub mod Scripts
pub mod Tests
