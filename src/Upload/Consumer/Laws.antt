-- ===== src/Upload/Consumer/Laws.antt =====
-- No event is lost, and none is retried for ever: the laws of the consumer in
-- backend/upload-service/pkg/rabbitmq/consumer.go.
use anti_fraud_detector.Prelude.{
  ℕ, zero, suc, ◌+◌, ◌^◌, ◌≤◌, ◌<◌, String, true, false, ◌≡◌, refl, ap, ◌∙◌, ◌⊎◌, inl, inr, some,
  leb, ◌≢◌, ◌==◌, Bool-cases, arith, if◌then◌else◌,
}
use anti_fraud_detector.Prelude.Int.{pos}
use anti_fraud_detector.Prelude.Dict.{lookup, lookup-insert}
use anti_fraud_detector.Upload.Consumer.{
  an_int32, Delivery, Handled, succeeded, permanent_error, other_error, Publication, not_published,
  confirmed, unconfirmed, Settlement, acked, dead_lettered, requeued, retry_count, header_int,
  to_int32, retries_of, headers_of, add_one, reaches, retried, published, process, attempts,
}

to_int32-small : (n : ℕ) → n < 2 ^ 31 → to_int32 (pos n) ≡ pos n
unfolding to_int32
to_int32-small n h = ground arith

module _ {Body : Type 0} where
  retries_of-retried :
      (d : Delivery Body) (r : ℕ)
      → retries_of d ≡ pos r
      → suc r < 2 ^ 31
      → retries_of (retried d) ≡ pos (suc r)
  unfolding header_int
  retries_of-retried d r e small =
      ap header_int (
        lookup-insert retry_count retry_count (an_int32 (to_int32 (add_one (retries_of d))))
          (headers_of d.headers))
      ∙ ap (λ v. to_int32 (add_one v)) e
      ∙ to_int32-small (suc r) small

-- What should become of an event that may be retried `left` times after attempt number `n`.
abbrev pub decided : ℕ → (ℕ → Handled) → ℕ → ℕ × Settlement
decided zero outcomes n = elim (outcomes n) [
  | succeeded ↦ (suc n, acked)
  | permanent_error ↦ (suc n, dead_lettered)
  | other_error ↦ (suc n, dead_lettered)
]
decided (suc left) outcomes n = elim (outcomes n) [
  | succeeded ↦ (suc n, acked)
  | permanent_error ↦ (suc n, dead_lettered)
  | other_error ↦ decided left outcomes (suc n)
]

at_limit : (r max : ℕ) → max ≤ r → leb max r ≡ true
at_limit r max h = ground arith

below_limit : (r max : ℕ) → r < max → leb max r ≡ false
below_limit r max h = ground arith

module _ {Body : Type 0} (max_retries : ℕ) (small : max_retries < 2 ^ 31)
    (outcomes : ℕ → Handled) where
  attempts-decided :
      (fuel left r n : ℕ) (d : Delivery Body)
      → retries_of d ≡ pos r
      → r + left ≡ max_retries
      → left < fuel
      → attempts fuel max_retries outcomes n d ≡ some (decided left outcomes n)
  unfolding attempts process published
  attempts-decided zero left r n d e total enough = absurd (omega (arith, enough))
  attempts-decided (suc fuel) zero r n d e total enough =
      let stops =
        ap (λ z. reaches z max_retries) e ∙ at_limit r max_retries (omega (arith, total)) in
      ground (arith, stops)
  attempts-decided (suc fuel) (suc left) r n d e total enough =
      let goes_on =
        ap (λ z. reaches z max_retries) e ∙ below_limit r max_retries (omega (arith, total)) in
      let later =
        attempts-decided fuel left (suc r) (suc n) (retried d)
          (retries_of-retried d r e (omega (arith, total, small))) (omega (arith, total))
          (omega (arith, enough)) in
      ground (arith, goes_on, later)

  -- An event without a count of retries, of which the broker confirms every copy, is handled until the
  -- handler succeeds or answers a permanent error, or for the last time after the limit of retries, and
  -- it ends so within one attempt more than the limit, which is below 2 ^ 31.
  pub attempts-terminates :
      (fuel : ℕ) (d : Delivery Body)
      → retries_of d ≡ pos 0
      → max_retries < fuel
      → attempts fuel max_retries outcomes 0 d ≡ some (decided max_retries outcomes 0)
  attempts-terminates fuel d fresh enough =
      attempts-decided fuel max_retries 0 0 d fresh (omega arith) enough

module _ {Body : Type 0} where
  -- A copy of the event: the same message with one retry more.
  pub record IsCopy (d copy : Delivery Body) : Type 0 where
    pub same_key : copy.routing_key ≡ d.routing_key
    pub same_id : copy.message_id ≡ d.message_id
    pub same_body : copy.body ≡ d.body
    pub headers_set :
        (name : String)
        → lookup name (headers_of copy.headers) ≡ (
            if retry_count == name
            then some (an_int32 (to_int32 (add_one (retries_of d))))
            else lookup name (headers_of d.headers))

  retried-IsCopy : (d : Delivery Body) → IsCopy d (retried d)
  retried-IsCopy d = record {
    same_key = refl;
    same_id = refl;
    same_body = refl;
    headers_set = λ name.
        lookup-insert retry_count name (an_int32 (to_int32 (add_one (retries_of d))))
          (headers_of d.headers);
  }

  -- A delivery is acknowledged only if its event was handled or the broker has confirmed a copy of the
  -- message with one retry more; it goes to the dead letters only after a permanent error or when the
  -- retries have reached their limit; and it is requeued only if a copy was not confirmed.
  pub process-keeps :
      (max_retries : ℕ) (handled : Handled) (publication : Publication) (d : Delivery Body)
      → let p = process max_retries handled publication d in
        ((p.settlement ≡ acked) × (handled ≡ succeeded))
        ⊎ ((p.settlement ≡ acked)
            × (publication ≡ confirmed)
            × (copy : Delivery Body) × (p.sent ≡ some copy)
            × IsCopy d copy)
        ⊎ ((p.settlement ≡ dead_lettered)
            × ((handled ≡ permanent_error) ⊎ (reaches (retries_of d) max_retries ≡ true)))
        ⊎ ((p.settlement ≡ requeued) × (handled ≡ other_error) × (publication ≢ confirmed))
  unfolding process published
  process-keeps max_retries succeeded publication d = inl (refl, refl)
  process-keeps max_retries permanent_error publication d = inr (inr (inl (refl, inl refl)))
  process-keeps max_retries other_error not_published d =
      elim (Bool-cases (reaches (retries_of d) max_retries)) [
        | inl stops ↦ inr (inr (inl (ground (arith, stops), inr stops)))
        | inr goes_on ↦ inr (inr (inr (ground (arith, goes_on), refl, λ h. ground (arith, h))))
      ]
  process-keeps max_retries other_error unconfirmed d =
      elim (Bool-cases (reaches (retries_of d) max_retries)) [
        | inl stops ↦ inr (inr (inl (ground (arith, stops), inr stops)))
        | inr goes_on ↦ inr (inr (inr (ground (arith, goes_on), refl, λ h. ground (arith, h))))
      ]
  process-keeps max_retries other_error confirmed d =
      elim (Bool-cases (reaches (retries_of d) max_retries)) [
        | inl stops ↦ inr (inr (inl (ground (arith, stops), inr stops)))
        | inr goes_on ↦ inr (
            inl
              (ground (arith, goes_on), refl, retried d, ground (arith, goes_on), retried-IsCopy d))
      ]
