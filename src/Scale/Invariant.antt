-- ===== src/Scale/Invariant.antt =====
-- Every transaction of api/postgres_idempotency.py leaves a database that `verify_audit_chain`
-- accepts acceptable.
use secure_swipe.Prelude.{
  ◌≡◌, refl, subst, sym, ap, ◌∙◌, inl, inr, ◌+◌, String, true, some, [], ◌∷◌, ◌++◌, All, All-append,
  string_eq, option_eq, beq_refl, arith, Bool-cases,
}
use secure_swipe.Prelude.Int.{ℤ}
use secure_swipe.Prelude.Dict
use secure_swipe.Prelude.Dict.{Dict, IsDistinct, put-IsDistinct, get-put_same}
use secure_swipe.Prelude.Result.{Result, ok, err}
use secure_swipe.Scale.Response.{Response, Environment}
use secure_swipe.Scale.Audit.{AuditEvent, Row, Database, audit_chain_id, genesis_hash, joins}
use secure_swipe.Scale.Stored.{ScaleError, Reservation, is_owner}
use secure_swipe.Scale.Store.{complete_reservation, completion, finish}
use secure_swipe.Scale.Machine.{Operation, reserve_op, complete_op, fail_op, step}
use secure_swipe.Scale.Built.{completed_row}
use secure_swipe.Scale.Commit.{IsCommitted, completion-IsCommitted}
use secure_swipe.Scale.Chain.{IsChained, IsChained-snoc}
use secure_swipe.Scale.Backing.{
  IsBacked, AllJoined, KeepsCompleted, All-IsBacked-put, AllJoined-put, any_joins-last,
  some-injective, any_joins-append,
}
use secure_swipe.Scale.Verifiable.{
  IsBuilt-IsGenuine, reserve-IsVerifiable, fail-IsVerifiable, IsVerifiable,
}

module _ {F : Type 0} (env : Environment F) where
  module _ (now : ℤ) (identifier : String) (at : ℤ) (r : Reservation F) (response : Response F)
      (db db' : Database F) (event : AuditEvent F)
      (c : IsCommitted env now identifier at r response db event db') where
    -- The row that the completion writes.
    abbrev written : Row F
    written = completed_row env c.row response event.event_hash

    event_key : event.key_digest ≡ r.key_digest
    event_key = ap (λ e. e.key_digest) c.built.made

    written-KeepsCompleted : KeepsCompleted db.idempotency r.key_digest written
    written-KeepsCompleted old found done =
        let same : c.row ≡ old = some-injective (sym c.here ∙ found) in cc

    new_event-IsBacked : IsBacked (Dict.put db.idempotency r.key_digest written) event
    new_event-IsBacked = record {
      row = written;
      here =
          get-put_same db.idempotency r.key_digest event.key_digest written
            ((string_eq.beq_iff r.key_digest event.key_digest).1 (sym event_key));
      state = refl;
      request = c.same ∙ ap (λ e. e.request_digest) (sym c.built.made);
      document = ap (λ e. some e.bounded_response) (sym c.built.made);
      hash = ap (λ e. some e.response_sha256) (sym c.built.made);
      receipt = refl;
    }

    written-joins : joins r.key_digest written event ≡ true
    written-joins =
        rw ((string_eq.beq_iff event.key_digest r.key_digest).1 event_key)
          (beq_refl (some event.event_hash))

  completion-IsVerifiable :
      (now : ℤ) (identifier : String) (at : ℤ) (r : Reservation F) (response : Response F)
      (db db' : Database F) (event : AuditEvent F)
      → IsCommitted env now identifier at r response db event db'
      → IsVerifiable env db
      → IsVerifiable env db'
  unfolding Dict.get Dict.put
  completion-IsVerifiable now identifier at r response db db' event c v =
      let head : v.head ≡ c.head =
        some-injective
          (sym (ap (λ heads. Dict.get heads audit_chain_id) v.one_head) ∙ c.head_here) in
      let row : Row F = completed_row env c.row response event.event_hash in
      record {
        head = record { last_sequence = c.head.last_sequence + 1; last_hash = event.event_hash };
        one_head =
            c.heads
            ∙ ap
                (λ heads. Dict.put heads audit_chain_id (record {
                  last_sequence = c.head.last_sequence + 1;
                  last_hash = event.event_hash;
                }))
                v.one_head;
        chained =
            subst
              (λ es. IsChained env 1 genesis_hash es (c.head.last_sequence + 1) event.event_hash)
              (sym c.events)
              (subst
                (λ n.
                  IsChained env 1 genesis_hash (db.audit_events ++ event ∷ []) n event.event_hash)
                (omega (arith, ap (λ h. h.last_sequence) head))
                (IsChained-snoc env 1 v.head.last_sequence genesis_hash v.head.last_hash
                  db.audit_events event v.chained
                  (ap (λ e. e.sequence) c.built.made
                    ∙ (omega (arith, ap (λ h. h.last_sequence) head)))
                  (ap (λ e. e.previous_hash) c.built.made ∙ ap (λ h. h.last_hash) (sym head))
                  (IsBuilt-IsGenuine env identifier (c.head.last_sequence + 1) c.head.last_hash
                    r.key_digest r.request_digest response at event c.built)));
        distinct =
            subst IsDistinct (sym c.rows)
              (put-IsDistinct db.idempotency r.key_digest row v.distinct);
        backed =
            subst (λ rows. All (IsBacked rows) db'.audit_events) (sym c.rows)
              (subst (All (IsBacked (Dict.put db.idempotency r.key_digest row))) (sym c.events) (
                All-append (IsBacked (Dict.put db.idempotency r.key_digest row)) db.audit_events
                  (event ∷ [])
                  (All-IsBacked-put db.idempotency r.key_digest row db.audit_events
                    (written-KeepsCompleted now identifier at r response db db' event c) v.backed)
                  (new_event-IsBacked now identifier at r response db db' event c, tt)));
        joined =
            subst (λ rows. AllJoined rows db'.audit_events) (sym c.rows)
              (subst (AllJoined (Dict.put db.idempotency r.key_digest row)) (sym c.events) (
                AllJoined-put db.idempotency r.key_digest row db.audit_events
                  (db.audit_events ++ event ∷ [])
                  (λ done.
                    any_joins-last r.key_digest row db.audit_events event
                      (written-joins now identifier at r response db db' event c))
                  (λ k r. any_joins-append k r db.audit_events (event ∷ [])) v.joined));
      }

  finish-IsVerifiable :
      (r : Reservation F) (response : Response F) (db : Database F)
      (m : Result ScaleError (AuditEvent F × Database F))
      → ((event : AuditEvent F) (db' : Database F) → m ≡ ok (event, db') → IsVerifiable env db')
      → IsVerifiable env db
      → IsVerifiable env (finish env r response db m).0
  finish-IsVerifiable r response db (err e) h v = v
  finish-IsVerifiable r response db (ok (event, db')) h v = h event db' refl

  complete_reservation-IsVerifiable :
      (now : ℤ) (identifier : String) (at : ℤ) (r : Reservation F) (response : Response F)
      (db : Database F)
      → IsVerifiable env db
      → IsVerifiable env (complete_reservation env now identifier at r response db).0
  unfolding complete_reservation
  complete_reservation-IsVerifiable now identifier at r response db v =
      elim (Bool-cases (is_owner r.kind)) [
        | inr other ↦ rw (other, complete_reservation) v
        | inl own ↦
            rw (own, complete_reservation)
              (finish-IsVerifiable r response db (completion env now identifier at r response db)
                (λ event db' e.
                  completion-IsVerifiable now identifier at r response db db' event
                    (completion-IsCommitted env now identifier at r response db db' event e) v)
                v)
      ]

  pub step-IsVerifiable :
      (ttl : ℤ) (op : Operation F) (db : Database F)
      → IsVerifiable env db
      → IsVerifiable env (step env ttl op db)
  unfolding step
  step-IsVerifiable ttl (reserve_op now identifier digest) db v =
      reserve-IsVerifiable env ttl now identifier digest db v
  step-IsVerifiable ttl (complete_op now identifier at r response) db v =
      complete_reservation-IsVerifiable now identifier at r response db v
  step-IsVerifiable ttl (fail_op r) db v = fail-IsVerifiable env r db v
