-- ===== src/Scale/Replay.antt =====
-- How a call of `execute_detailed` (api/postgres_idempotency.py) is answered once an earlier one
-- for the same request id has returned.
use secure_swipe.Prelude.{
  ◌≡◌, ◌≢◌, refl, subst, sym, ap, ◌∙◌, inl, inr, String, true, false, List, ◌==◌, string_eq,
  Bool-cases,
}
use secure_swipe.Prelude.Int.{ℤ}
use secure_swipe.Prelude.Dict
use secure_swipe.Prelude.Dict.{Dict, get-put_same}
use secure_swipe.Prelude.Result.{ok, err}
use secure_swipe.Prelude.Text.{is_sha256}
use secure_swipe.Scale.Response.{Response, Environment}
use secure_swipe.Scale.Audit.{Database}
use secure_swipe.Scale.Stored.{from_row, conflict, bad_request_digest}
use secure_swipe.Scale.Store.{reserve, reserve_key}
use secure_swipe.Scale.Machine.{Operation, run}
use secure_swipe.Scale.Settled.{IsSettled, run-IsSettled}
use secure_swipe.Scale.Client.{Call, ExecutionResult, execute_detailed}
use secure_swipe.Scale.Reserving.{reserve-IsSettled}
use secure_swipe.Scale.Answers.{Answers-ok, execute_detailed-Answers}

not_equal : (s t : String) → s ≢ t → (s == t) ≡ false
not_equal s t h = elim (Bool-cases (s == t)) [
  | inl same ↦ absurd (h ((string_eq.beq_iff s t).0 same))
  | inr other ↦ other
]

module _ {F : Type 0} (env : Environment F) (ttl : ℤ) where
  open env use {hmac_key}

  -- A call with an invalid digest fails.
  execute_detailed-is_sha256 :
      (call : Call F) (db : Database F) (result : ExecutionResult F)
      → (execute_detailed env ttl call db).1 ≡ ok result
      → is_sha256 call.request_digest ≡ true
  unfolding execute_detailed reserve
  execute_detailed-is_sha256 call db result h = elim (Bool-cases (is_sha256 call.request_digest)) [
    | inl good ↦ good
    | inr bad ↦
        let refused : (execute_detailed env ttl call db).1 ≡ err bad_request_digest =
          rw (bad, reserve) refl in
        cc
  ]

  execute_detailed-IsSettled :
      (call : Call F) (db : Database F) (receipt : String) (response : Response F)
      → is_sha256 call.request_digest ≡ true
      → IsSettled env
          (hmac_key call.request_id)
          call.request_digest
          response
          receipt
          (Dict.get db.idempotency (hmac_key call.request_id))
      → execute_detailed env ttl call db
        ≡ (db, ok (record { response = response; audit_receipt_sha256 = receipt; replayed = true }))
  unfolding execute_detailed
  execute_detailed-IsSettled call db receipt response good s =
      rw
        (reserve-IsSettled env ttl call.now call.request_id call.request_digest receipt response db
          s good)
        refl

  IsSettled-at :
      (i j d e : String) (response : Response F) (receipt : String) (db : Database F)
      → i ≡ j
      → d ≡ e
      → IsSettled env (hmac_key i) d response receipt (Dict.get db.idempotency (hmac_key i))
      → IsSettled env (hmac_key j) e response receipt (Dict.get db.idempotency (hmac_key j))
  IsSettled-at i j d e response receipt db at same s =
      subst
        (λ k. IsSettled env (hmac_key k) e response receipt (Dict.get db.idempotency (hmac_key k)))
        at
        (subst
          (λ d.
            IsSettled env (hmac_key i) d response receipt (Dict.get db.idempotency (hmac_key i)))
          same s)

  -- What a later call finds.
  later-IsSettled :
      (first again : Call F) (db : Database F) (ops : List (Operation F))
      (result : ExecutionResult F)
      → (execute_detailed env ttl first db).1 ≡ ok result
      → again.request_id ≡ first.request_id
      → IsSettled env
          (hmac_key again.request_id)
          first.request_digest
          result.response
          result.audit_receipt_sha256
          (Dict.get
            (run env ttl ops (execute_detailed env ttl first db).0).idempotency
            (hmac_key again.request_id))
  later-IsSettled first again db ops result h id =
      let later = run env ttl ops (execute_detailed env ttl first db).0 in
      let key = hmac_key first.request_id in
      IsSettled-at first.request_id again.request_id first.request_digest first.request_digest
        result.response result.audit_receipt_sha256 later (sym id) refl
        (run-IsSettled env ttl ops key first.request_digest result.response
          result.audit_receipt_sha256 (execute_detailed env ttl first db).0
          (Answers-ok env ttl key first.request_digest (execute_detailed env ttl first db) result h
            (execute_detailed-Answers env ttl first db)))

  -- Once a call of `execute_detailed` has returned a result, then after any transactions of the
  -- store, each call with the same request id and the same request digest changes nothing and
  -- returns that response and that audit receipt, as a replay, whatever its own operation is,
  -- whatever the times are and whatever the other clients do.
  pub execute_detailed-replay :
      (first again : Call F) (db : Database F) (ops : List (Operation F))
      (result : ExecutionResult F)
      → (execute_detailed env ttl first db).1 ≡ ok result
      → again.request_id ≡ first.request_id
      → again.request_digest ≡ first.request_digest
      → let later = run env ttl ops (execute_detailed env ttl first db).0 in
        execute_detailed env ttl again later ≡ (later, ok (record result { replayed = true }))
  execute_detailed-replay first again db ops result h id digest =
      let later = run env ttl ops (execute_detailed env ttl first db).0 in
      execute_detailed-IsSettled again later result.audit_receipt_sha256 result.response
        (ap is_sha256 digest ∙ execute_detailed-is_sha256 first db result h)
        (IsSettled-at again.request_id again.request_id first.request_digest again.request_digest
          result.response result.audit_receipt_sha256 later refl (sym digest)
          (later-IsSettled first again db ops result h id))

  -- Once a call of `execute_detailed` has returned a result, then after any transactions of the
  -- store, each call with the same request id and another valid request digest changes nothing
  -- and fails with a conflict.
  pub execute_detailed-conflict :
      (first again : Call F) (db : Database F) (ops : List (Operation F))
      (result : ExecutionResult F)
      → (execute_detailed env ttl first db).1 ≡ ok result
      → again.request_id ≡ first.request_id
      → again.request_digest ≢ first.request_digest
      → is_sha256 again.request_digest ≡ true
      → let later = run env ttl ops (execute_detailed env ttl first db).0 in
        execute_detailed env ttl again later ≡ (later, err conflict)
  unfolding execute_detailed reserve reserve_key from_row
  execute_detailed-conflict first again db ops result h id other good =
      let s = later-IsSettled first again db ops result h id in
      let differs : (s.row.request_digest == again.request_digest) ≡ false =
        not_equal s.row.request_digest again.request_digest (λ same. other (sym same ∙ s.same)) in
      rw good (rw (s.here, reserve_key) (rw differs refl))
