-- ===== src/Scale/Transition.antt =====
-- What one transaction can do to the row of a key (api/postgres_idempotency.py).
use secure_swipe.Prelude.{
  ◌≡◌, refl, subst, sym, ap, ◌∙◌, ◌⊎◌, inl, inr, String, true, false, Option, none, some, List, [],
  ◌∷◌, All, ◌==◌, string_eq, arith, Bool-cases, Option-cases,
}
use secure_swipe.Prelude.Int.{ℤ, ◌+ℤ◌, leb_ℤ}
use secure_swipe.Prelude.Dict
use secure_swipe.Prelude.Dict.{Dict, get-put_same, get-put_other}
use secure_swipe.Prelude.Result.{Result, ok, err}
use secure_swipe.Prelude.Text.{is_sha256}
use secure_swipe.Scale.Response.{Response, Environment}
use secure_swipe.Scale.Audit.{AuditEvent, State, Row, Database}
use secure_swipe.Scale.Stored.{ScaleError, Reservation, is_owner, is_reserved, is_stale, new_row}
use secure_swipe.Scale.Store.{
  reserve, reserve_key, complete_reservation, completion, finish, fail, fail_row,
}
use secure_swipe.Scale.Machine.{Operation, reserve_op, complete_op, fail_op, step, run, run-keeps}
use secure_swipe.Scale.Built.{is_reserved-eq, completed_row}
use secure_swipe.Scale.Commit.{IsCommitted, completion-IsCommitted}

pub reserved_not_closed :
    {F : Type 0} (old row : Row F)
    → old.state ≡ State.reserved
    → old ≡ row
    → is_reserved row.state ≡ false
    → ⊥
reserved_not_closed old row s same closed =
    let open_row : row.state ≡ State.reserved = ap (λ r. r.state) (sym same) ∙ s in
    cc (ap is_reserved open_row)

-- What has expired has expired at each later time.
pub stale_later :
    (expires now later : ℤ)
    → leb_ℤ expires now ≡ true
    → leb_ℤ now later ≡ true
    → leb_ℤ expires later ≡ false
    → ⊥
stale_later expires now later h k f = ground arith

pub none_not_some {ℓ} : {A : Type ℓ} {a : A} → none ≡ some a → ⊥
none_not_some h = cc

module _ {F : Type 0} where
  -- A row that is no longer open.
  abbrev pub IsClosed : Row F → Option (Row F) → Type 0
  IsClosed row o = (o ≡ some row) × (is_reserved row.state ≡ false)

  -- There is a row with this request digest.
  pub record IsBound (digest : String) (o : Option (Row F)) : Type 0 where
    pub row : Row F
    pub here : o ≡ some row
    pub same : row.request_digest ≡ digest

  -- The row is open and past its expiry, or was given up.
  abbrev pub IsExpired : ℤ → Option (Row F) → Type 0
  IsExpired now o =
      (row : Row F) × (o ≡ some row)
      × (is_stale now row ≡ true)
      × ((row.state ≡ State.reserved) ⊎ (row.state ≡ State.failed))

  -- A completion does not read an earlier time than `now`.
  abbrev pub NotBefore : ℤ → Operation F → Type 0
  NotBefore now (complete_op later identifier at r response) = leb_ℤ now later ≡ true
  NotBefore now _ = Unit

module _ {F : Type 0} (env : Environment F) (ttl : ℤ) (j : String) where
  open env use {hmac_key}

  -- What a transaction may do to the row of the key digest `j`.
  pub data Transition : Operation F → Option (Row F) → Option (Row F) → Type 0 where
    stay : (op : Operation F) (o : Option (Row F)) → Transition op o o
    create :
        (now : ℤ) (identifier digest : String)
        → hmac_key identifier ≡ j
        → Transition (reserve_op now identifier digest) none (some (new_row digest (now +ℤ ttl)))
    finished :
        (now : ℤ) (identifier : String) (at : ℤ) (r : Reservation F) (response : Response F)
        (row : Row F) (receipt : String)
        → r.key_digest ≡ j
        → r.request_digest ≡ row.request_digest
        → row.state ≡ State.reserved
        → is_stale now row ≡ false
        → Transition
            (complete_op now identifier at r response)
            (some row)
            (some (completed_row env row response receipt))
    released :
        (r : Reservation F) (row : Row F)
        → r.key_digest ≡ j
        → r.request_digest ≡ row.request_digest
        → row.state ≡ State.reserved
        → Transition (fail_op r) (some row) (some (record row { state = State.failed }))

  -- A write at one key moves that row and no other.
  put-Transition :
      (op : Operation F) (rows : Dict String (Row F)) (key : String) (row : Row F)
      → (key ≡ j → Transition op (Dict.get rows key) (some row))
      → Transition op (Dict.get rows j) (Dict.get (Dict.put rows key row) j)
  put-Transition op rows key row m = elim (Bool-cases (key == j)) [
    | inr other ↦
        subst (Transition op (Dict.get rows j)) (sym (get-put_other rows key j row other))
          (stay op _)
    | inl own ↦
        let at : key ≡ j = (string_eq.beq_iff key j).0 own in
        subst (Transition op (Dict.get rows j)) (sym (get-put_same rows key j row own))
          (subst (λ k. Transition op (Dict.get rows k) (some row)) at (m at))
  ]

  reserve-Transition :
      (now : ℤ) (identifier digest : String) (db : Database F)
      → Transition
          (reserve_op now identifier digest)
          (Dict.get db.idempotency j)
          (Dict.get (reserve env ttl now identifier digest db).0.idempotency j)
  unfolding reserve reserve_key
  reserve-Transition now identifier digest db = elim (Bool-cases (is_sha256 digest)) [
    | inr bad ↦ rw (bad, reserve) (stay _ _)
    | inl good ↦ elim (Option-cases (Dict.get db.idempotency (hmac_key identifier))) [
      | inr (row, here) ↦ rw (good, here, reserve, reserve_key) (stay _ _)
      | inl absent ↦
          rw (good, absent, reserve, reserve_key)
            (put-Transition _ db.idempotency (hmac_key identifier) (new_row digest (now +ℤ ttl))
              λ at. rw absent (create now identifier digest at))
    ]
  ]

  fail_row-Transition :
      (r : Reservation F) (row : Row F)
      → r.key_digest ≡ j
      → Transition (fail_op r) (some row) (some (fail_row r.request_digest row))
  fail_row-Transition r row at = elim (Bool-cases (row.request_digest == r.request_digest)) [
    | inr other ↦ rw other (stay _ _)
    | inl own ↦ elim (Bool-cases (is_reserved row.state)) [
      | inr closed ↦ rw (own, closed) (stay _ _)
      | inl still ↦
          rw (own, still)
            (released r row at (sym ((string_eq.beq_iff _ _).0 own))
              (is_reserved-eq row.state still))
    ]
  ]

  fail-Transition :
      (r : Reservation F) (db : Database F)
      → Transition (fail_op r) (Dict.get db.idempotency j) (Dict.get (fail r db).0.idempotency j)
  unfolding fail
  fail-Transition r db = elim (Bool-cases (is_owner r.kind)) [
    | inr other ↦ rw (other, fail) (stay _ _)
    | inl own ↦ elim (Option-cases (Dict.get db.idempotency r.key_digest)) [
      | inl absent ↦ rw (own, absent, fail) (stay _ _)
      | inr (row, here) ↦
          rw (own, here, fail)
            (put-Transition _ db.idempotency r.key_digest (fail_row r.request_digest row)
              λ at. rw here (fail_row-Transition r row at))
    ]
  ]

  module _ (now : ℤ) (identifier : String) (at : ℤ) (r : Reservation F) (response : Response F)
      (db : Database F) where
    finish-Transition :
        (m : Result ScaleError (AuditEvent F × Database F))
        → ((db' : Database F) (event : AuditEvent F)
            → m ≡ ok (event, db')
            → IsCommitted env now identifier at r response db event db')
        → Transition
            (complete_op now identifier at r response)
            (Dict.get db.idempotency j)
            (Dict.get (finish env r response db m).0.idempotency j)
    finish-Transition (err e) h = stay _ _
    finish-Transition (ok (event, db')) h =
        let c = h db' event refl in
        subst
          (λ rows.
            Transition (complete_op now identifier at r response) (Dict.get db.idempotency j)
              (Dict.get rows j))
          (sym c.rows)
          (put-Transition _ db.idempotency r.key_digest
            (completed_row env c.row response event.event_hash)
            λ key. rw c.here (
              finished now identifier at r response c.row event.event_hash key (sym c.same)
                c.open_row c.fresh))

    complete_reservation-Transition :
        Transition
          (complete_op now identifier at r response)
          (Dict.get db.idempotency j)
          (Dict.get (complete_reservation env now identifier at r response db).0.idempotency j)
    unfolding complete_reservation
    complete_reservation-Transition = elim (Bool-cases (is_owner r.kind)) [
      | inr other ↦ rw (other, complete_reservation) (stay _ _)
      | inl own ↦
          rw (own, complete_reservation)
            (finish-Transition (completion env now identifier at r response db)
              (completion-IsCommitted env now identifier at r response db))
    ]

  -- Every transaction takes the row of every key digest by one of the transitions: it stays, a
  -- `reserve` of that key creates it, a completion with its owner's digest before the expiry
  -- completes it, or a failure with its digest fails it while it is reserved.
  pub step-Transition :
      (op : Operation F) (db : Database F)
      → Transition op (Dict.get db.idempotency j) (Dict.get (step env ttl op db).idempotency j)
  unfolding step
  step-Transition (reserve_op now identifier digest) db =
      reserve-Transition now identifier digest db
  step-Transition (complete_op now identifier at r response) db =
      complete_reservation-Transition now identifier at r response db
  step-Transition (fail_op r) db = fail-Transition r db

  -- What every move of the operations keeps, the run keeps.
  pub run-Transition {ℓ} :
      (P : Option (Row F) → Type ℓ) (Q : Operation F → Type 0)
      → ((op : Operation F) (o p : Option (Row F)) → Q op → Transition op o p → P o → P p)
      → (ops : List (Operation F)) (db : Database F) → All Q ops
      → P (Dict.get db.idempotency j)
      → P (Dict.get (run env ttl ops db).idempotency j)
  unfolding run
  run-Transition P Q h [] db q p = p
  run-Transition P Q h (op ∷ ops) db q p =
      run-Transition P Q h ops (step env ttl op db) q.1 (h op _ _ q.0 (step-Transition op db) p)

  -- What every move keeps, every run keeps.
  pub run-Transition_all {ℓ} :
      (P : Option (Row F) → Type ℓ)
      → ((op : Operation F) (o p : Option (Row F)) → Transition op o p → P o → P p)
      → (ops : List (Operation F)) (db : Database F) → P (Dict.get db.idempotency j)
      → P (Dict.get (run env ttl ops db).idempotency j)
  run-Transition_all P h =
      run-keeps env ttl (λ db. P (Dict.get db.idempotency j))
        λ op db. h op _ _ (step-Transition op db)
