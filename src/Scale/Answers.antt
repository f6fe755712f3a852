-- ===== src/Scale/Answers.antt =====
-- What a successful call of `execute_detailed` (api/postgres_idempotency.py) leaves behind: a
-- settled key.
use secure_swipe.Prelude.{
  ◌≡◌, refl, subst, sym, ap, inl, inr, String, true, none, some, List, [], ◌∷◌, string_eq,
  Option-cases,
}
use secure_swipe.Prelude.Int.{ℤ}
use secure_swipe.Prelude.Dict
use secure_swipe.Prelude.Dict.{Dict, get-put_same}
use secure_swipe.Prelude.Result.{Result, ok, err, ok-injective}
use secure_swipe.Scale.Response.{Environment}
use secure_swipe.Scale.Audit.{Database}
use secure_swipe.Scale.Stored.{
  ScaleError, Reservation, ReservationKind, owner, completed, reserved, stale, failed,
  operation_failed,
}
use secure_swipe.Scale.Store.{read, fail}
use secure_swipe.Scale.Machine.{run}
use secure_swipe.Scale.Settled.{IsSettled, Settles}
use secure_swipe.Scale.Client.{
  Poll, Call, ExecutionResult, verdict, heed, poll, wait_for_reservation, give_up, committed, own,
  waited, is_waiting, dispatch, follow, execute_detailed,
}
use secure_swipe.Scale.Reserving.{
  row_Reserves, reserve-Reserves, complete_reservation-Settles, Reserves,
}

module _ {F : Type 0} (env : Environment F) where
  open env use {hmac_key}

  module _ (ttl : ℤ) where
    -- A result stands for a settled key.
    abbrev pub Answers :
        String → String → Database F × Result ScaleError (ExecutionResult F) → Type 0
    Answers key digest (db, err e) = Unit
    Answers key digest (db, ok result) =
        IsSettled env key digest result.response result.audit_receipt_sha256
          (Dict.get db.idempotency key)

    verdict-Settles :
        (k : ReservationKind) (key digest : String) (db : Database F) (r : Reservation F)
        (rest : Database F × Result ScaleError (Reservation F))
        → r.kind ≡ k
        → (r.kind ≡ completed → Settles env key digest (db, ok r))
        → Settles env key digest rest
        → Settles env key digest (elim (verdict k r) [ none ↦ rest | some result ↦ (db, result) ])
    verdict-Settles owner key digest db r rest at known after = after
    verdict-Settles reserved key digest db r rest at known after = after
    verdict-Settles stale key digest db r rest at known after = tt
    verdict-Settles failed key digest db r rest at known after = tt
    verdict-Settles completed key digest db r rest at known after =
        let (response, receipt, e, f, s) = known at in rw e (response, receipt, e, f, s)

    heed-Settles :
        (key digest : String) (db : Database F)
        (rest : Database F × Result ScaleError (Reservation F))
        (m : Result ScaleError (Reservation F))
        → Reserves env key digest (db, m)
        → Settles env key digest rest
        → Settles env key digest (heed db rest m)
    heed-Settles key digest db rest (err e) known after = tt
    heed-Settles key digest db rest (ok r) known after =
        verdict-Settles r.kind key digest db r rest refl known.2 after

    read-Reserves :
        (now : ℤ) (key digest : String) (db : Database F)
        → Reserves env key digest (db, read env now key digest db)
    unfolding read
    read-Reserves now key digest db = elim (Option-cases (Dict.get db.idempotency key)) [
      | inl absent ↦ rw (absent, read) tt
      | inr (row, here) ↦ rw (here, read) (row_Reserves env now row key digest db _ here refl)
    ]

    released_Answers :
        (key digest : String) (e : ScaleError) (m : Database F × Result ScaleError (Unit {0}))
        → Answers key digest (elim m.1 [ ok _ ↦ (m.0, err e) | err f ↦ (m.0, err f) ])
    released_Answers key digest e (db, ok u) = tt
    released_Answers key digest e (db, err f) = tt

    poll-Settles :
        (r : Reservation F) (ps : List (Poll F)) (db : Database F)
        → Settles env r.key_digest r.request_digest (poll env ttl r ps db)
    unfolding poll
    poll-Settles r [] db = tt
    poll-Settles r (p ∷ ps) db =
        let later = run env ttl p.others db in
        heed-Settles r.key_digest r.request_digest later (poll env ttl r ps later)
          (read env p.now r.key_digest r.request_digest later)
          (read-Reserves p.now r.key_digest r.request_digest later) (poll-Settles r ps later)

    -- Only a reservation of kind `reserved` waits.
    wait_for_reservation-Settles :
        (r : Reservation F) (ps : List (Poll F)) (db : Database F)
        → r.kind ≡ reserved
        → Settles env r.key_digest r.request_digest (wait_for_reservation env ttl r ps db)
    unfolding wait_for_reservation
    wait_for_reservation-Settles r ps db waiting =
        let undecided : verdict r.kind r ≡ none = ap (λ k. verdict k r) waiting in
        let waits : is_waiting r.kind ≡ true = ap is_waiting waiting in
        rw (undecided, wait_for_reservation) (rw waits (poll-Settles r ps db))

    give_up-Answers :
        (key digest : String) (call : Call F) (r : Reservation F) (e : ScaleError) (db : Database F)
        → Answers key digest (give_up env ttl call r e db)
    unfolding fail
    give_up-Answers key digest call r e db =
        released_Answers key digest e (fail r (run env ttl call.meanwhile db))

    committed-Answers :
        (call : Call F) (r : Reservation F) (m : Database F × Result ScaleError (Reservation F))
        → Settles env r.key_digest r.request_digest m
        → Answers r.key_digest r.request_digest (committed env ttl call r m)
    committed-Answers call r (db, err e) s =
        give_up-Answers r.key_digest r.request_digest call r e db
    committed-Answers call r (db, ok done) (response, receipt, e, f, s) = rw (e, f) s

    own-Answers :
        (call : Call F) (r : Reservation F) (db : Database F)
        → Answers r.key_digest r.request_digest (own env ttl call r db)
    own-Answers call r db = elim (Option-cases call.response) [
      | inl raised ↦
          rw raised (give_up-Answers r.key_digest r.request_digest call r operation_failed _)
      | inr (response, returned) ↦ rw returned (
          committed-Answers call r _ (
            complete_reservation-Settles env call.commit_now call.identifier call.occurred_at r
              response _))
    ]

    waited-Answers :
        (key digest : String) (m : Database F × Result ScaleError (Reservation F))
        → Settles env key digest m
        → Answers key digest (waited env ttl m)
    waited-Answers key digest (db, err e) s = tt
    waited-Answers key digest (db, ok done) (response, receipt, e, f, s) = rw (e, f) s

    dispatch-Answers :
        (k : ReservationKind) (call : Call F) (r : Reservation F) (db : Database F)
        → r.kind ≡ k
        → (r.kind ≡ completed → Settles env r.key_digest r.request_digest (db, ok r))
        → Answers r.key_digest r.request_digest (dispatch env ttl k call r db)
    dispatch-Answers owner call r db at known = own-Answers call r db
    dispatch-Answers stale call r db at known = tt
    dispatch-Answers failed call r db at known = tt
    dispatch-Answers reserved call r db at known =
        waited-Answers r.key_digest r.request_digest _
          (wait_for_reservation-Settles r call.polls db at)
    dispatch-Answers completed call r db at known =
        let (response, receipt, e, f, s) = known at in rw (e, f) s

    follow-Answers :
        (key digest : String) (call : Call F) (m : Database F × Result ScaleError (Reservation F))
        → Reserves env key digest m
        → Answers key digest (follow env ttl call m)
    follow-Answers key digest call (db, err e) h = tt
    follow-Answers key digest call (db, ok r) h =
        subst (λ k. Answers k digest (dispatch env ttl r.kind call r db)) h.0
          (subst (λ d. Answers r.key_digest d (dispatch env ttl r.kind call r db)) h.1
            (dispatch-Answers r.kind call r db refl λ done.
              subst (λ k. Settles env k r.request_digest (db, ok r)) (sym h.0)
                (subst (λ d. Settles env key d (db, ok r)) (sym h.1) (h.2 done))))

    pub execute_detailed-Answers :
        (call : Call F) (db : Database F)
        → Answers (hmac_key call.request_id) call.request_digest (execute_detailed env ttl call db)
    unfolding execute_detailed
    execute_detailed-Answers call db =
        follow-Answers (hmac_key call.request_id) call.request_digest call _
          (reserve-Reserves env ttl call.now call.request_id call.request_digest db)

    pub Answers-ok :
        (key digest : String) (m : Database F × Result ScaleError (ExecutionResult F))
        (result : ExecutionResult F)
        → m.1 ≡ ok result
        → Answers key digest m
        → IsSettled env key digest result.response result.audit_receipt_sha256
            (Dict.get m.0.idempotency key)
    Answers-ok key digest (db, err e) result h a = cc
    Answers-ok key digest (db, ok other) result h a =
        subst
          (λ r.
            IsSettled env key digest r.response r.audit_receipt_sha256
              (Dict.get db.idempotency key))
          (ok-injective h) a
