-- ===== src/Kafka/Reading.antt =====
-- What KafkaEventSource (internal/replay/kafka_source.go) reads of a record that holds an encoded envelope.
use durable_agent_execution.Prelude.{
  ◌>>=◌, ◌≡◌, String, true, List, ok, [], ◌<◌, sym, ◌≢◌, ◌∷◌, refl, ap, arith, ite, ◌∙◌, str_dec,
}
use durable_agent_execution.Kafka.{
  Record, Scanner, event_of, String, true, List, ok, [], ◌∷◌, ite, str_dec,
}
use durable_agent_execution.Kafka.Scan.{events_in, before_rest, prepend}
use durable_agent_execution.Events.{Envelope, known_event_types}
use durable_agent_execution.Events.Codec.{time_limit, encode, decode}
use durable_agent_execution.Events.RoundTrip.{decode-encode, settle_raw}
use durable_agent_execution.Json.{fits_int64}

-- An envelope as NewEnvelope makes it: a known type, an int64 sequence number, a time before the year
-- 10000.
pub record IsWritable (e : Envelope) : Type 0 where
  pub known : known_event_types e.event_type ≡ true
  pub fits : fits_int64 e.sequence_number ≡ true
  pub early : e.occurred_at < time_limit

-- The envelopes of one run, a nil payload as `null`.
unfoldable pub of_run : String → List Envelope → List Envelope
of_run run_id [] = []
of_run run_id (e ∷ es) =
    ite (str_dec e.run_id run_id) (record e { payload = settle_raw e.payload } ∷ of_run run_id es)
      (of_run run_id es)

module _ {W : Type 0} (scanner : Scanner W) (run_id : String) where
  decode-published :
      (e : Envelope) (rec : Record)
      → encode scanner.text e ≡ ok rec.value
      → IsWritable e
      → decode scanner.text rec.value ≡ ok (record e { payload = settle_raw e.payload })
  decode-published e rec made good =
      sym (ap (λ x. x >>= decode scanner.text) made)
      ∙ decode-encode scanner.text e good.known good.fits good.early

  pub events_in-own :
      (e : Envelope) (es : List Envelope) (rec : Record) (recs : List Record)
      → rec.key ≡ e.run_id
      → encode scanner.text e ≡ ok rec.value
      → IsWritable e
      → events_in scanner run_id recs ≡ ok (of_run run_id es)
      → events_in scanner run_id (rec ∷ recs) ≡ ok (of_run run_id (e ∷ es))
  unfolding events_in before_rest prepend event_of of_run
  events_in-own e es rec recs key made good h =
      ground (arith, key, decode-published e rec made good, h)

pub of_run-other :
    (run_id : String) (e : Envelope) (es : List Envelope)
    → e.run_id ≢ run_id
    → of_run run_id (e ∷ es) ≡ of_run run_id es
unfolding of_run
of_run-other run_id e es other = ground (arith, other)

pub events_in-nil :
    {W : Type 0} (scanner : Scanner W) (run_id : String)
    → events_in scanner run_id [] ≡ ok (of_run run_id [])
unfolding events_in of_run
events_in-nil scanner run_id = refl
