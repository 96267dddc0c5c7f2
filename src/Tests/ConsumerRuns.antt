-- ===== src/Tests/ConsumerRuns.antt =====
-- A run of the consumer of backend/upload-service: an event that fails twice and is then handled.
use anti_fraud_detector.Prelude.{
  ℕ, String, true, ◌≡◌, ◌≢◌, ◌⊎◌, refl, arith, none, some, if◌then◌else◌, ltb,
}
use anti_fraud_detector.Prelude.Int.{pos}
use anti_fraud_detector.Prelude.Dict.{lookup}
use anti_fraud_detector.Upload.Consumer.{
  Delivery, Handled, succeeded, permanent_error, other_error, confirmed, acked, dead_lettered,
  requeued, retries_of, header_int, reaches, process, attempts,
}
use anti_fraud_detector.Upload.Consumer.Laws.{IsCopy, attempts-terminates, process-keeps}

abbrev event : Delivery String
event = record { routing_key = "scoring.completed"; headers = none; message_id = "m1"; body = "{}" }

abbrev fails_twice : ℕ → Handled
fails_twice n = if ltb n 2 then other_error else succeeded

fresh : retries_of event ≡ pos 0
unfolding header_int lookup
fresh = refl

attempts-terminates_example : attempts 5 3 fails_twice 0 event ≡ some (3, acked)
attempts-terminates_example =
    attempts-terminates 3 (ground arith) fails_twice 5 event fresh (ground arith)

process-keeps_example :
    let p = process 3 other_error confirmed event in
    ((p.settlement ≡ acked) × (other_error ≡ succeeded))
    ⊎ ((p.settlement ≡ acked)
        × (confirmed ≡ confirmed)
        × (copy : Delivery String) × (p.sent ≡ some copy)
        × IsCopy event copy)
    ⊎ ((p.settlement ≡ dead_lettered)
        × ((other_error ≡ permanent_error) ⊎ (reaches (retries_of event) 3 ≡ true)))
    ⊎ ((p.settlement ≡ requeued) × (other_error ≡ other_error) × (confirmed ≢ confirmed))
process-keeps_example = process-keeps 3 other_error confirmed event
