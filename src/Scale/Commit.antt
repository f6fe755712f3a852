-- ===== src/Scale/Commit.antt =====
-- What a completion that commits has found and written (api/postgres_idempotency.py,
-- complete_reservation).
use secure_swipe.Prelude.{
  ◌≡◌, sym, ap, subst, ◌∙◌, ℕ, ◌+◌, ◌-◌, ◌||◌, not, String, true, false, some, List, [], ◌∷◌, ◌++◌,
  ◌==◌, string_eq, arith,
}
use mathlib.Core.Path.{ap₂}
use secure_swipe.Prelude.Int.{ℤ}
use secure_swipe.Prelude.Dict
use secure_swipe.Prelude.Dict.{Dict, get-put}
use secure_swipe.Prelude.Result.{
  not-false, of_option-eq-ok, Result, ok, err, >>=-eq-ok, fail_if, fail_if-eq-ok, of_option,
  ok-injective,
}
use secure_swipe.Scale.Response.{Response, dump, Environment}
use secure_swipe.Scale.Audit.{
  AuditEvent, AuditError, Head, State, Row, Database, audit_chain_id, response_hash,
  build_audit_event, every_event,
}
use secure_swipe.Scale.Stored.{
  Reservation, is_reserved, is_stale, distinct_events, insert_event, complete_row, move_head,
  conflict, unavailable, stale_reservation, stored_response_integrity,
}
use secure_swipe.Scale.Store.{audit_result, commit_event, completion}
use secure_swipe.Scale.Built.{IsBuilt, build_audit_event-eq-ok, completed_row, is_reserved-eq}

module _ {F : Type 0} (env : Environment F) where
  -- What a completion that commits found and wrote.
  pub record IsCommitted (now : ℤ) (identifier : String) (at : ℤ) (r : Reservation F)
      (response : Response F) (db : Database F) (event : AuditEvent F) (db' : Database F)
      : Type 0 where
    pub row : Row F
    pub head : Head
    pub here : Dict.get db.idempotency r.key_digest ≡ some row
    pub same : row.request_digest ≡ r.request_digest
    pub open_row : row.state ≡ State.reserved
    pub fresh : is_stale now row ≡ false
    pub head_here : Dict.get db.audit_chain_heads audit_chain_id ≡ some head
    pub built :
        IsBuilt env identifier audit_chain_id
          (head.last_sequence + 1)
          head.last_hash
          r.key_digest
          r.request_digest
          response
          at
          event
    pub unique : every_event (distinct_events event) db.audit_events ≡ true
    pub rows :
        db'.idempotency
        ≡ Dict.put db.idempotency r.key_digest (completed_row env row response event.event_hash)
    pub heads :
        db'.audit_chain_heads
        ≡ Dict.put db.audit_chain_heads audit_chain_id
            (record { last_sequence = head.last_sequence + 1; last_hash = event.event_hash })
    pub events : db'.audit_events ≡ db.audit_events ++ event ∷ []

  insert_event-eq-some :
      (e : AuditEvent F) (es fs : List (AuditEvent F))
      → insert_event e es ≡ some fs
      → (every_event (distinct_events e) es ≡ true) × (fs ≡ es ++ e ∷ [])
  unfolding insert_event
  insert_event-eq-some e es fs h = ground arith

  complete_row-eq-some :
      (row : Row F) (key digest receipt : String) (response : Response F)
      (rows rows' : Dict String (Row F))
      → Dict.get rows key ≡ some row
      → complete_row key digest (dump response) (response_hash env response) receipt rows
        ≡ some rows'
      → rows' ≡ Dict.put rows key (completed_row env row response receipt)
  complete_row-eq-some row key digest receipt response rows rows' here h = ground arith

  move_head-eq-some :
      (head : Head) (chain hash previous : String) (sequence old : ℕ)
      (heads heads' : Dict String Head)
      → Dict.get heads chain ≡ some head
      → move_head chain sequence hash old previous heads ≡ some heads'
      → heads' ≡ Dict.put heads chain (record { last_sequence = sequence; last_hash = hash })
  move_head-eq-some head chain hash previous sequence old heads heads' here h = ground arith

  audit_result-eq-ok :
      {A : Type 0} (m : Result AuditError A) (a : A) → audit_result env m ≡ ok a → m ≡ ok a
  audit_result-eq-ok (ok b) a h = cc
  audit_result-eq-ok (err e) a h = cc

  commit_event-eq-ok :
      (row : Row F) (head : Head) (r : Reservation F) (response : Response F) (e : AuditEvent F)
      (db d : Database F)
      → Dict.get db.idempotency r.key_digest ≡ some row
      → Dict.get db.audit_chain_heads e.chain_id ≡ some head
      → commit_event env r response e db ≡ ok d
      → (every_event (distinct_events e) db.audit_events ≡ true)
        × (d.idempotency
            ≡ Dict.put db.idempotency r.key_digest (completed_row env row response e.event_hash))
        × (d.audit_chain_heads
            ≡ Dict.put db.audit_chain_heads e.chain_id
                (record { last_sequence = e.sequence; last_hash = e.event_hash }))
        × (d.audit_events ≡ db.audit_events ++ e ∷ [])
  commit_event-eq-ok row head r response e db d here head_here h =
      let (events, e7, h7) =
        >>=-eq-ok (of_option (insert_event e db.audit_events) unavailable) _ h in
      let (rows, e8, h8) =
        >>=-eq-ok
          (of_option
            (complete_row r.key_digest r.request_digest (dump response) (response_hash env response)
              e.event_hash db.idempotency)
            stale_reservation)
          _ h7 in
      let (heads, e9, h9) =
        >>=-eq-ok
          (of_option
            (move_head e.chain_id e.sequence e.event_hash (e.sequence - 1) e.previous_hash
              db.audit_chain_heads)
            stored_response_integrity)
          _ h8 in
      let made : (record { idempotency = rows; audit_chain_heads = heads; audit_events = events })
          ≡ d =
        ok-injective h9 in
      let inserted =
        insert_event-eq-some e db.audit_events events (of_option-eq-ok _ unavailable e7) in
      let updated =
        complete_row-eq-some row r.key_digest r.request_digest e.event_hash response db.idempotency
          rows here (of_option-eq-ok _ stale_reservation e8) in
      let moved =
        move_head-eq-some head e.chain_id e.event_hash e.previous_hash e.sequence (e.sequence - 1)
          db.audit_chain_heads heads head_here (of_option-eq-ok _ stored_response_integrity e9) in
      (
        inserted.0,
        ap (λ d. d.idempotency) (sym made) ∙ updated,
        ap (λ d. d.audit_chain_heads) (sym made) ∙ moved,
        ap (λ d. d.audit_events) (sym made) ∙ inserted.1,
      )

  pub completion-IsCommitted :
      (now : ℤ) (identifier : String) (at : ℤ) (r : Reservation F) (response : Response F)
      (db db' : Database F) (event : AuditEvent F)
      → completion env now identifier at r response db ≡ ok (event, db')
      → IsCommitted now identifier at r response db event db'
  unfolding completion
  completion-IsCommitted now identifier at r response db db' event h =
      let (row, e1, h1) =
        >>=-eq-ok (of_option (Dict.get db.idempotency r.key_digest) unavailable) _ h in
      let (_, e2, h2) =
        >>=-eq-ok (fail_if (not (row.request_digest == r.request_digest)) conflict) _ h1 in
      let (_, e3, h3) =
        >>=-eq-ok (fail_if (not (is_reserved row.state) || is_stale now row) stale_reservation) _
          h2 in
      let (head, e4, h4) =
        >>=-eq-ok
          (of_option (Dict.get db.audit_chain_heads audit_chain_id) stored_response_integrity) _
          h3 in
      let (e, e5, h5) =
        >>=-eq-ok
          (audit_result env (
            build_audit_event env identifier audit_chain_id (head.last_sequence + 1) head.last_hash
              r.key_digest r.request_digest response at))
          _ h4 in
      let (d, e6, h6) = >>=-eq-ok (commit_event env r response e db) _ h5 in
      let head_here = of_option-eq-ok _ stored_response_integrity e4 in
      let tests =
        fail_if-eq-ok (not (is_reserved row.state) || is_stale now row) stale_reservation e3 in
      let same_event : e ≡ event = ap (λ x. x.0) (ok-injective h6) in
      let same_db : d ≡ db' = ap (λ x. x.1) (ok-injective h6) in
      let built =
        subst
          (IsBuilt env identifier audit_chain_id (head.last_sequence + 1) head.last_hash
            r.key_digest r.request_digest response at)
          same_event
          (build_audit_event-eq-ok env identifier audit_chain_id (head.last_sequence + 1)
            head.last_hash r.key_digest r.request_digest response at e
            (audit_result-eq-ok _ e e5)) in
      let chain : event.chain_id ≡ audit_chain_id = ap (λ e. e.chain_id) built.made in
      let sequence : event.sequence ≡ head.last_sequence + 1 = ap (λ e. e.sequence) built.made in
      let (unique, rows, heads, events) =
        commit_event-eq-ok row head r response event db db' (of_option-eq-ok _ unavailable e1)
          (ap (Dict.get db.audit_chain_heads) chain ∙ head_here)
          (ap (λ e. commit_event env r response e db) (sym same_event) ∙ e6 ∙ ap ok same_db) in
      record {
        row = row;
        head = head;
        here = of_option-eq-ok _ unavailable e1;
        same = (string_eq.beq_iff _ _).0 (not-false _ (fail_if-eq-ok _ conflict e2));
        open_row = is_reserved-eq row.state (ground arith);
        fresh = ground arith;
        head_here = head_here;
        built = built;
        unique = unique;
        rows = rows;
        heads =
            heads
            ∙ ap₂
                (λ c n.
                  Dict.put db.audit_chain_heads c
                    (record { last_sequence = n; last_hash = event.event_hash }))
                chain sequence;
        events = events;
      }
