-- ===== src/Scale/Client.antt =====
-- The callers' side of api/postgres_idempotency.py: `wait_for_reservation` and
-- `execute_detailed`. Between two transactions of one call the transactions of the others run:
-- they are arguments, and so are the times that are read. Timers and fault hooks are left out.
use secure_swipe.Prelude.{
  String, Bool, true, false, Option, none, some, List, [], ◌∷◌, if◌then◌else◌,
}
use secure_swipe.Prelude.Int.{ℤ}
use secure_swipe.Prelude.Result.{Result, ok, err}
use secure_swipe.Scale.Response.{Response, Environment}
use secure_swipe.Scale.Audit.{Database}
use secure_swipe.Scale.Stored.{
  ScaleError, Reservation, ReservationKind, owner, completed, reserved, stale, failed,
  still_in_progress, stale_reservation, failed_reservation, stored_response_integrity,
  not_awaitable, operation_failed,
}
use secure_swipe.Scale.Store.{reserve, read, complete_reservation, fail}
use secure_swipe.Scale.Machine.{Operation, run}

-- One round of the polling loop: what the others do in the sleep, and the time of the read.
pub record Poll (F : Type 0) : Type 0 where
  pub others : List (Operation F)
  pub now : ℤ

-- `DurableExecutionResult`
pub record ExecutionResult (F : Type 0) : Type 0 where
  pub response : Response F
  pub audit_receipt_sha256 : String
  pub replayed : Bool

-- One call of `execute_detailed`: its arguments, the rounds that its wait lasts, what the
-- operation returns (`none`: it raises), and what the others do while it runs and while an
-- exception is handled.
pub record Call (F : Type 0) : Type 0 where
  pub request_id : String
  pub request_digest : String
  pub now : ℤ
  pub polls : List (Poll F)
  pub others : List (Operation F)
  pub response : Option (Response F)
  pub commit_now : ℤ
  pub identifier : String
  pub occurred_at : ℤ
  pub meanwhile : List (Operation F)

abbrev pub is_waiting : ReservationKind → Bool
is_waiting reserved = true
is_waiting _ = false

module _ {F : Type 0} where
  -- What ends a wait: a completed response, or a refusal.
  abbrev pub verdict : ReservationKind → Reservation F → Option (Result ScaleError (Reservation F))
  verdict completed r = elim r.response [ none ↦ none | some _ ↦ some (ok r) ]
  verdict stale r = some (err stale_reservation)
  verdict failed r = some (err failed_reservation)
  verdict owner r = none
  verdict reserved r = none

  -- The body of the polling loop after a read; `rest` is the rest of the loop.
  abbrev pub heed :
      Database F
      → Database F × Result ScaleError (Reservation F)
      → Result ScaleError (Reservation F)
      → Database F × Result ScaleError (Reservation F)
  heed db rest (err e) = (db, err e)
  heed db rest (ok current) = elim (verdict current.kind current) [
    | none ↦ rest
    | some result ↦ (db, result)
  ]

  abbrev pub replay : Option (Response F) → Option String → Result ScaleError (ExecutionResult F)
  replay none receipt = err stored_response_integrity
  replay (some response) none = err stored_response_integrity
  replay (some response) (some receipt) =
      ok (record { response = response; audit_receipt_sha256 = receipt; replayed = true })

module _ {F : Type 0} (env : Environment F) (ttl : ℤ) where
  -- The loop `while loop.time() < deadline`, over the rounds until the deadline.
  unfoldable pub poll :
      Reservation F → List (Poll F) → Database F → Database F × Result ScaleError (Reservation F)
  unfolding read run
  poll r [] db = (db, err still_in_progress)
  poll r (p ∷ ps) db =
      let later = run env ttl p.others db in
      let rest = poll r ps later in
      heed later rest (read env p.now r.key_digest r.request_digest later)

  unfoldable pub wait_for_reservation :
      Reservation F → List (Poll F) → Database F → Database F × Result ScaleError (Reservation F)
  unfolding poll
  wait_for_reservation r ps db = elim (verdict r.kind r) [
    | some result ↦ (db, result)
    | none ↦ if is_waiting r.kind then poll r ps db else (db, err not_awaitable)
  ]

  -- The `except BaseException` of `execute_detailed`.
  abbrev pub give_up :
      Call F
      → Reservation F
      → ScaleError
      → Database F
      → Database F × Result ScaleError (ExecutionResult F)
  give_up call r e db =
      let (db', released) = fail r (run env ttl call.meanwhile db) in
      elim released [ ok _ ↦ (db', err e) | err f ↦ (db', err f) ]

  abbrev pub committed :
      Call F
      → Reservation F
      → Database F × Result ScaleError (Reservation F)
      → Database F × Result ScaleError (ExecutionResult F)
  committed call r (db, err e) = give_up call r e db
  committed call r (db, ok done) = elim (replay done.response done.audit_receipt_sha256) [
    | err e ↦ give_up call r e db
    | ok result ↦ (db, ok (record result { replayed = false }))
  ]

  -- The owner's part: the operation and the completion.
  abbrev pub own :
      Call F → Reservation F → Database F → Database F × Result ScaleError (ExecutionResult F)
  own call r db =
      let later = run env ttl call.others db in
      elim call.response [
        | none ↦ give_up call r operation_failed later
        | some response ↦ committed call r (
            complete_reservation env call.commit_now call.identifier call.occurred_at r response
              later)
      ]

  abbrev pub waited :
      Database F × Result ScaleError (Reservation F)
      → Database F × Result ScaleError (ExecutionResult F)
  waited (db, err e) = (db, err e)
  waited (db, ok done) = (db, replay done.response done.audit_receipt_sha256)

  abbrev pub dispatch :
      ReservationKind
      → Call F
      → Reservation F
      → Database F
      → Database F × Result ScaleError (ExecutionResult F)
  dispatch completed call r db = elim r.response [
    | none ↦ own call r db
    | some response ↦ (db, replay (some response) r.audit_receipt_sha256)
  ]
  dispatch reserved call r db = waited (wait_for_reservation r call.polls db)
  dispatch stale call r db = (db, err stale_reservation)
  dispatch failed call r db = (db, err failed_reservation)
  dispatch owner call r db = own call r db

  abbrev pub follow :
      Call F
      → Database F × Result ScaleError (Reservation F)
      → Database F × Result ScaleError (ExecutionResult F)
  follow call (db, err e) = (db, err e)
  follow call (db, ok r) = dispatch r.kind call r db

  unfoldable pub execute_detailed :
      Call F → Database F → Database F × Result ScaleError (ExecutionResult F)
  unfolding reserve complete_reservation fail wait_for_reservation run
  execute_detailed call db =
      follow call (reserve env ttl call.now call.request_id call.request_digest db)
