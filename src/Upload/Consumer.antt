-- ===== src/Upload/Consumer.antt =====
-- process and headerInt of backend/upload-service/pkg/rabbitmq/consumer.go. What the handler answers, and
-- what becomes of a message that is published again, are arguments; logging is left out. `int` has 64 bits,
-- and `retries + 1` does not leave them, as `retries` is below the limit.
pub mod Laws
use anti_fraud_detector.Prelude.{
  ℕ, zero, suc, ◌-◌, ◌%◌, ◌^◌, String, Bool, false, Option, none, some, List, [], if◌then◌else◌,
  leb, ltb,
}
use anti_fraud_detector.Prelude.Int.{ℤ, pos, negsuc}
use anti_fraud_detector.Prelude.Dict.{lookup, insert}

-- A value in the headers of a message: the integer types that headerInt knows, or another one.
pub data HeaderValue : Type 0 where
  an_int32 an_int64 an_int : ℤ → HeaderValue
  another : HeaderValue

pub record Delivery (Body : Type 0) : Type 0 where
  pub routing_key : String
  pub headers : Option (List (String × HeaderValue))
  pub message_id : String
  pub body : Body

-- The handler's error, if any: one whose Permanent() is true, or any other one.
pub data Handled : Type 0 where
  succeeded permanent_error other_error : Handled

-- PublishWithContext fails, the broker confirms, or it refuses, the channel closes or the context ends.
pub data Publication : Type 0 where
  not_published confirmed unconfirmed : Publication

-- Ack(false), Nack(false, false) and Nack(false, true).
pub data Settlement : Type 0 where
  acked dead_lettered requeued : Settlement

-- What becomes of the delivery, and the copy of it that was given to the broker.
pub record Processed (Body : Type 0) : Type 0 where
  pub settlement : Settlement
  pub sent : Option (Delivery Body)

abbrev pub retry_count : String
retry_count = "x-upload-retry-count"

unfoldable pub header_int : Option HeaderValue → ℤ
header_int (some (an_int32 v)) = v
header_int (some (an_int64 v)) = v
header_int (some (an_int v)) = v
header_int (some another) = pos 0
header_int none = pos 0

abbrev pub add_one : ℤ → ℤ
add_one (pos n) = pos (suc n)
add_one (negsuc zero) = pos 0
add_one (negsuc (suc n)) = negsuc n

-- The 32 bits `m` read with their sign.
abbrev pub signed32 : ℕ → ℤ
signed32 m = if ltb m (2 ^ 31) then pos m else negsuc (2 ^ 32 - 1 - m)

-- int32(n).
unfoldable pub to_int32 : ℤ → ℤ
to_int32 (pos n) = signed32 (n % 2 ^ 32)
to_int32 (negsuc n) = signed32 (2 ^ 32 - 1 - n % 2 ^ 32)

-- retries >= MaxRetries, which the configuration keeps above zero.
abbrev pub reaches : ℤ → ℕ → Bool
reaches (pos n) max = leb max n
reaches (negsuc n) max = false

abbrev pub headers_of : Option (List (String × HeaderValue)) → List (String × HeaderValue)
headers_of none = []
headers_of (some headers) = headers

module _ {Body : Type 0} where
  -- delivery.Headers["x-upload-retry-count"], also of nil headers.
  abbrev pub retries_of : Delivery Body → ℤ
  retries_of d = header_int (lookup retry_count (headers_of d.headers))

  abbrev pub retried : Delivery Body → Delivery Body
  retried d = record d {
    headers =
        some (
          insert retry_count (an_int32 (to_int32 (add_one (retries_of d)))) (headers_of d.headers));
  }

  published : Publication → Delivery Body → Processed Body
  published not_published copy = record { settlement = requeued; sent = none }
  published unconfirmed copy = record { settlement = requeued; sent = some copy }
  published confirmed copy = record { settlement = acked; sent = some copy }

  unfoldable pub process : ℕ → Handled → Publication → Delivery Body → Processed Body
  unfolding published
  process max_retries succeeded publication d = record { settlement = acked; sent = none }
  process max_retries permanent_error publication d = record {
    settlement = dead_lettered;
    sent = none;
  }
  process max_retries other_error publication d =
      if reaches (retries_of d) max_retries
      then record { settlement = dead_lettered; sent = none }
      else published publication (retried d)

  -- An event and its copies, of which the broker confirms every one: `outcomes` says what the handler
  -- answers to each attempt from number `n`. The result is the number of the attempts and the last one's end.
  unfoldable pub attempts : ℕ → ℕ → (ℕ → Handled) → ℕ → Delivery Body → Option (ℕ × Settlement)
  attempts zero max_retries outcomes n d = none
  attempts (suc fuel) max_retries outcomes n d =
      let step = process max_retries (outcomes n) confirmed d in
      elim step.sent [
        | none ↦ some (suc n, step.settlement)
        | some copy ↦ attempts fuel max_retries outcomes (suc n) copy
      ]
