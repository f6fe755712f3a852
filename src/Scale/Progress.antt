-- ===== src/Scale/Progress.antt =====
-- The owner of a reservation succeeds (api/postgres_idempotency.py, complete_reservation and
-- execute_detailed).
use secure_swipe.Prelude.{
  ◌≡◌, refl, subst, sym, ap, ◌∙◌, String, List, true, false, none, some, string_eq, beq_refl,
}
use secure_swipe.Prelude.Int.{ℤ, ◌+ℤ◌}
use secure_swipe.Prelude.Dict
use secure_swipe.Prelude.Dict.{Dict, get-put_same}
use secure_swipe.Prelude.Result.{Result, ok, err, ok-injective}
use secure_swipe.Prelude.Text.{is_sha256}
use secure_swipe.Scale.Response.{Response, Environment}
use secure_swipe.Scale.Audit.{
  Head, State, Row, Database, audit_chain_id, genesis_hash, every_event, response_hash,
}
use secure_swipe.Scale.Stored.{
  ScaleError, Reservation, is_owner, is_stale, new_row, owner, bare, replayed,
}
use secure_swipe.Scale.Store.{reserve, reserve_key, complete_reservation}
use secure_swipe.Scale.Machine.{Operation, run, run-keeps}
use secure_swipe.Scale.Chain.{IsChained}
use secure_swipe.Scale.Backing.{some-injective}
use secure_swipe.Scale.Verifiable.{IsVerifiable, seeded, seeded-IsVerifiable, reserve-IsVerifiable}
use secure_swipe.Scale.Invariant.{step-IsVerifiable}
use secure_swipe.Scale.Transition.{IsBound}
use secure_swipe.Scale.Keys.{run-IsBound}
use secure_swipe.Scale.Client.{Call, execute_detailed, follow, dispatch}
use secure_swipe.Scale.Completion.{
  completion-ok, every-distinct_events, IsChained-is_sha256, IsChained-le, all_three,
  completed_database, is_unseen, next_event,
}

module _ {F : Type 0} (env : Environment F) where
  open env use {hmac_digest, hmac_key, is_uuid}

  complete_reservation-ok :
      (now : ℤ) (identifier : String) (at : ℤ) (r : Reservation F) (response : Response F)
      (db : Database F) (row : Row F) (head : Head)
      → IsVerifiable env db
      → is_owner r.kind ≡ true
      → Dict.get db.idempotency r.key_digest ≡ some row
      → row.request_digest ≡ r.request_digest
      → row.state ≡ State.reserved
      → is_stale now row ≡ false
      → Dict.get db.audit_chain_heads audit_chain_id ≡ some head
      → is_sha256 r.key_digest ≡ true
      → is_sha256 r.request_digest ≡ true
      → is_uuid identifier ≡ true
      → every_event (is_unseen env (next_event env identifier head r response at)) db.audit_events
        ≡ true
      → let e = next_event env identifier head r response at in
        complete_reservation env now identifier at r response db ≡ (
          completed_database env db r response row e,
          ok (
              replayed r.key_digest r.request_digest response
                (response_hash env response)
                e.event_hash),
        )
  unfolding complete_reservation is_sha256 Dict.get
  complete_reservation-ok now identifier at r response db row head v mine here same open_row fresh
        head_here key digest id new =
      let e = next_event env identifier head r response at in
      let last : v.head ≡ head =
        some-injective (sym (ap (λ heads. Dict.get heads audit_chain_id) v.one_head) ∙ head_here) in
      let chained : IsChained env 1 genesis_hash db.audit_events head.last_sequence head.last_hash =
        subst (λ h. IsChained env 1 genesis_hash db.audit_events h.last_sequence h.last_hash) last
          v.chained in
      let valid : is_sha256 head.last_hash ≡ true =
        IsChained-is_sha256 env 1 head.last_sequence genesis_hash head.last_hash db.audit_events
          chained refl in
      let unique =
        every-distinct_events env db.idempotency row head.last_sequence e db.audit_events here
          open_row refl v.backed
          (IsChained-le env 1 head.last_sequence genesis_hash head.last_hash db.audit_events
            chained)
          new in
      let done =
        completion-ok env now identifier at r response db row head here same open_row fresh
          head_here (all_three valid key digest) id unique in
      rw (mine, complete_reservation) (rw done refl)

  module _ (ttl : ℤ) where
    -- The tables when the owner commits: after its reservation and what the others did since.
    abbrev pub at_commit : Call F → Database F → Database F
    at_commit call db =
        run env ttl call.others (reserve env ttl call.now call.request_id call.request_digest db).0

    abbrev pub owned : Call F → Reservation F
    owned call = bare owner (hmac_key call.request_id) call.request_digest

    reserve-absent :
        (now : ℤ) (identifier digest : String) (db : Database F)
        → is_sha256 digest ≡ true
        → Dict.get db.idempotency (hmac_key identifier) ≡ none
        → ((reserve env ttl now identifier digest db).1
            ≡ ok (bare owner (hmac_key identifier) digest))
          × IsBound digest (
              Dict.get
                (reserve env ttl now identifier digest db).0.idempotency
                (hmac_key identifier))
    unfolding reserve reserve_key
    reserve-absent now identifier digest db good absent =
        rw (good, reserve)
          (rw (absent, reserve_key)
            (
              refl,
              record {
                row = new_row digest (now +ℤ ttl);
                here = get-put_same db.idempotency _ _ _ (beq_refl (hmac_key identifier));
                same = refl;
              },
            ))

    follow-ok :
        (call : Call F) (m : Database F × Result ScaleError (Reservation F)) (r : Reservation F)
        → m.1 ≡ ok r
        → follow env ttl call m ≡ dispatch env ttl r.kind call r m.0
    follow-ok call (db, err e) r h = cc
    follow-ok call (db, ok s) r h = ap (λ r. dispatch env ttl r.kind call r db) (ok-injective h)

    -- The call of `execute_detailed` that finds no row for its request id succeeds, on a database
    -- that any transactions have led to from the tables that the migrations leave: if the digest is valid and the operation returns, and
    -- at the commit the row is still reserved and unexpired and the event id is a new UUID with a
    -- new event hash, then the response is returned with the hash of its event, not as a replay.
    pub execute_detailed-owner :
        (call : Call F) (response : Response F) (row : Row F) (head : Head)
        (before : List (Operation F)) (db : Database F)
        → db ≡ run env ttl before seeded
        → is_sha256 call.request_digest ≡ true
        → Dict.get db.idempotency (hmac_key call.request_id) ≡ none
        → call.response ≡ some response
        → is_uuid call.identifier ≡ true
        → Dict.get (at_commit call db).idempotency (hmac_key call.request_id) ≡ some row
        → row.state ≡ State.reserved
        → is_stale call.commit_now row ≡ false
        → Dict.get (at_commit call db).audit_chain_heads audit_chain_id ≡ some head
        → every_event
            (is_unseen env
              (next_event env call.identifier head (owned call) response call.occurred_at))
            (at_commit call db).audit_events
          ≡ true
        → (execute_detailed env ttl call db).1
          ≡ ok (record {
            response = response;
            audit_receipt_sha256 =
                (next_event env call.identifier head
                  (owned call)
                  response
                  call.occurred_at).event_hash;
            replayed = false;
          })
    unfolding execute_detailed
    execute_detailed-owner call response row head before db reached good absent returned id here
          open_row fresh head_here new =
        let key = hmac_key call.request_id in
        let (answer, bound) =
          reserve-absent call.now call.request_id call.request_digest db good absent in
        let b = run-IsBound env ttl key call.request_digest call.others _ bound in
        let same : row.request_digest ≡ call.request_digest =
          ap (λ r. r.request_digest) (some-injective (sym here ∙ b.here)) ∙ b.same in
        let v : IsVerifiable env db = subst (IsVerifiable env) (sym reached) (
          run-keeps env ttl (IsVerifiable env) (step-IsVerifiable env ttl) before seeded
            (seeded-IsVerifiable env)) in
        let kept : IsVerifiable env (at_commit call db) =
          run-keeps env ttl (IsVerifiable env) (step-IsVerifiable env ttl) call.others _
            (reserve-IsVerifiable env ttl call.now call.request_id call.request_digest db v) in
        let done =
          complete_reservation-ok call.commit_now call.identifier call.occurred_at (owned call)
            response (at_commit call db) row head kept refl here same open_row fresh head_here
            (hmac_digest call.request_id) good id new in
        ap (λ m. m.1)
          (follow-ok call (reserve env ttl call.now call.request_id call.request_digest db)
            (owned call) answer)
        ∙ (rw returned (rw done refl))
