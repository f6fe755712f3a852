-- ===== src/Scale/Completion.antt =====
-- A completion at the end of the chain commits (api/postgres_idempotency.py,
-- complete_reservation).
use secure_swipe.Prelude.{
  ◌≡◌, refl, sym, ap, ◌∙◌, inl, inr, ℕ, suc, ◌+◌, ◌-◌, ◌≤◌, ◌&&◌, not, String, Bool, true, false,
  some, List, [], ◌∷◌, ◌++◌, All, ◌==◌, string_eq, arith, Bool-cases, nat_beq,
}
use secure_swipe.Prelude.Int.{ℤ}
use secure_swipe.Prelude.Dict
use secure_swipe.Prelude.Dict.{Dict, get-put_same}
use secure_swipe.Prelude.Result.{ok}
use secure_swipe.Prelude.Text.{is_sha256}
use secure_swipe.Scale.Response.{Response, dump, Environment}
use secure_swipe.Scale.Audit.{
  AuditEvent, Head, State, Row, Database, audit_chain_id, unsigned_event, canonical_event_bytes,
  every_event, response_hash,
}
use secure_swipe.Scale.Stored.{
  Reservation, is_stale, distinct_events, complete_row, move_head, insert_event,
}
use secure_swipe.Scale.Store.{commit_event, completion}
use secure_swipe.Scale.Built.{IsBuilt-build_audit_event, completed_row}
use secure_swipe.Scale.Chain.{IsChained, length-IsChained}
use secure_swipe.Scale.Backing.{IsBacked, some-injective}

both : (a b : Bool) → (a && b) ≡ true → (a ≡ true) × (b ≡ true)
both true b h = (refl, h)
both false b h = cc

pub all_three : {a b c : Bool} → a ≡ true → b ≡ true → c ≡ true → (a && b && c) ≡ true
all_three p q r = rw (p, q, r) refl

not_both : (a : Bool) → (not (a && false) && true) ≡ true
not_both true = refl
not_both false = refl

module _ {F : Type 0} (env : Environment F) where
  open env use {sha256, sha256_digest, hmac_digest, hmac_key, is_uuid}

  -- The event that a completion at the end of the chain builds.
  abbrev pub next_event : String → Head → Reservation F → Response F → ℤ → AuditEvent F
  next_event identifier head r response at =
      let e =
        unsigned_event env identifier audit_chain_id (head.last_sequence + 1) head.last_hash
          r.key_digest r.request_digest response at in
      record e { event_hash = sha256 (canonical_event_bytes env e) }

  -- The event id and the hash are new in the table.
  abbrev pub is_unseen : AuditEvent F → AuditEvent F → Bool
  is_unseen e f = not (e.event_id == f.event_id) && not (e.event_hash == f.event_hash)

  pub IsChained-is_sha256 :
      (s n : ℕ) (p h : String) (es : List (AuditEvent F))
      → IsChained env s p es n h
      → is_sha256 p ≡ true
      → is_sha256 h ≡ true
  IsChained-is_sha256 s n p h [] c valid = ap is_sha256 (sym c.1) ∙ valid
  IsChained-is_sha256 s n p h (e ∷ es) c valid =
      IsChained-is_sha256 (suc s) n e.event_hash h es c.3
        (ap (λ e. is_sha256 e.event_hash) c.2.built.made ∙ sha256_digest _)

  pub IsChained-le :
      (s n : ℕ) (p h : String) (es : List (AuditEvent F))
      → IsChained env s p es n h
      → All (λ e. e.sequence ≤ n) es
  IsChained-le s n p h [] c = tt
  IsChained-le s n p h (e ∷ es) c = (
    omega (arith, c.0, length-IsChained env s n p h (e ∷ es) c),
    IsChained-le (suc s) n e.event_hash h es c.3,
  )

  other_key :
      (rows : Dict String (Row F)) (key : String) (row : Row F) (f : AuditEvent F)
      → Dict.get rows key ≡ some row
      → row.state ≡ State.reserved
      → IsBacked rows f
      → (key == f.key_digest) ≡ false
  other_key rows key row f here open_row b = elim (Bool-cases (key == f.key_digest)) [
    | inr other ↦ other
    | inl own ↦
        let at : key ≡ f.key_digest = (string_eq.beq_iff key f.key_digest).0 own in
        let same : row ≡ b.row = some-injective (sym here ∙ ap (Dict.get rows) at ∙ b.here) in
        let closed : row.state ≡ State.completed = ap (λ r. r.state) same ∙ b.state in cc
  ]

  -- A new id and hash are all that the constraints ask for.
  pub every-distinct_events :
      (rows : Dict String (Row F)) (row : Row F) (n : ℕ) (e : AuditEvent F)
      (es : List (AuditEvent F))
      → Dict.get rows e.key_digest ≡ some row
      → row.state ≡ State.reserved
      → e.sequence ≡ n + 1
      → All (IsBacked rows) es
      → All (λ f. f.sequence ≤ n) es
      → every_event (is_unseen e) es ≡ true
      → every_event (distinct_events e) es ≡ true
  unfolding every_event
  every-distinct_events rows row n e [] here open_row at b le new = refl
  every-distinct_events rows row n e (f ∷ es) here open_row at b le new =
      let keys = other_key rows e.key_digest row f here open_row b.0 in
      let places : nat_beq e.sequence f.sequence ≡ false = ground (arith, at, le.0) in
      let (fresh, later) = both (is_unseen e f) (every_event (is_unseen e) es) new in
      let (ids, hashes) =
        both (not (e.event_id == f.event_id)) (not (e.event_hash == f.event_hash)) fresh in
      let rest = every-distinct_events rows row n e es here open_row at b.1 le.1 later in
      rw (ids, hashes) (rw keys (rw places (rw rest (not_both (e.chain_id == f.chain_id)))))

  -- The database after the completion.
  abbrev pub completed_database :
      Database F → Reservation F → Response F → Row F → AuditEvent F → Database F
  completed_database db r response row e = record {
    idempotency =
        Dict.put db.idempotency r.key_digest (completed_row env row response e.event_hash);
    audit_chain_heads =
        Dict.put db.audit_chain_heads audit_chain_id
          (record { last_sequence = e.sequence; last_hash = e.event_hash });
    audit_events = db.audit_events ++ e ∷ [];
  }

  commit_event-ok :
      (r : Reservation F) (response : Response F) (db : Database F) (row : Row F) (head : Head)
      (e : AuditEvent F)
      → Dict.get db.idempotency r.key_digest ≡ some row
      → row.request_digest ≡ r.request_digest
      → row.state ≡ State.reserved
      → Dict.get db.audit_chain_heads audit_chain_id ≡ some head
      → every_event (distinct_events e) db.audit_events ≡ true
      → e.chain_id ≡ audit_chain_id
      → e.sequence ≡ head.last_sequence + 1
      → e.previous_hash ≡ head.last_hash
      → is_sha256 e.event_hash ≡ true
      → is_sha256 e.response_sha256 ≡ true
      → commit_event env r response e db ≡ ok (completed_database db r response row e)
  unfolding insert_event
  commit_event-ok r response db row head e here same open_row head_here unique chain at previous
        valid valid' =
      let before : nat_beq head.last_sequence (e.sequence - 1) ≡ true = ground (arith, at) in
      let head' : Dict.get db.audit_chain_heads e.chain_id ≡ some head =
        ap (Dict.get db.audit_chain_heads) chain ∙ head_here in
      let row' : Row F = completed_row env row response e.event_hash in
      let updated : complete_row r.key_digest r.request_digest (dump response)
            (response_hash env response) e.event_hash db.idempotency
          ≡ some (Dict.put db.idempotency r.key_digest row') =
        rw (here, complete_row) (rw ((string_eq.beq_iff _ _).1 same) (rw open_row refl)) in
      let moved : move_head e.chain_id e.sequence e.event_hash (e.sequence - 1) e.previous_hash
            db.audit_chain_heads
          ≡ some (
              Dict.put db.audit_chain_heads e.chain_id
                (record { last_sequence = e.sequence; last_hash = e.event_hash })) =
        rw (head', move_head) (rw before (rw ((string_eq.beq_iff _ _).1 (sym previous)) refl)) in
      rw unique (rw (valid, valid') (rw updated (rw moved (rw chain refl))))

  pub completion-ok :
      (now : ℤ) (identifier : String) (at : ℤ) (r : Reservation F) (response : Response F)
      (db : Database F) (row : Row F) (head : Head)
      → Dict.get db.idempotency r.key_digest ≡ some row
      → row.request_digest ≡ r.request_digest
      → row.state ≡ State.reserved
      → is_stale now row ≡ false
      → Dict.get db.audit_chain_heads audit_chain_id ≡ some head
      → (is_sha256 head.last_hash && is_sha256 r.key_digest && is_sha256 r.request_digest) ≡ true
      → is_uuid identifier ≡ true
      → every_event (distinct_events (next_event identifier head r response at)) db.audit_events
        ≡ true
      → completion env now identifier at r response db
        ≡ ok (
          next_event identifier head r response at,
          completed_database db r response row (next_event identifier head r response at),
        )
  unfolding completion insert_event
  completion-ok now identifier at r response db row head here same open_row fresh head_here digests
        id unique =
      let e = next_event identifier head r response at in
      let built =
        IsBuilt-build_audit_event env identifier audit_chain_id (head.last_sequence + 1)
          head.last_hash r.key_digest r.request_digest response at e
          (record { positive = omega arith; digests = digests; identified = id; made = refl }) in
      rw here (
        rw ((string_eq.beq_iff _ _).1 same) (
          rw open_row (
            rw fresh (
              rw head_here (
                rw built (
                  rw
                    (commit_event-ok r response db row head e here same open_row head_here unique
                      refl refl refl (sha256_digest _) (sha256_digest _))
                    refl))))))
