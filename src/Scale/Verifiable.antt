-- ===== src/Scale/Verifiable.antt =====
-- The database that `verify_audit_chain` (api/postgres_audit.py) accepts, and the transactions
-- that write one row of the idempotency table.
use secure_swipe.Prelude.{
  ◌≡◌, refl, subst, sym, ap, ◌∙◌, inl, inr, ℕ, String, true, [], ◌∷◌, All, string_eq, option_eq,
  arith, Bool-cases, Option-cases,
}
use secure_swipe.Prelude.Int.{ℤ}
use secure_swipe.Prelude.Dict
use secure_swipe.Prelude.Dict.{Dict, IsDistinct, put-IsDistinct, get-put_same}
use secure_swipe.Prelude.Text.{is_sha256}
use secure_swipe.Scale.Response.{Response, Environment}
use secure_swipe.Scale.Audit.{
  AuditEvent, Head, State, Row, Database, audit_chain_id, genesis_hash, any_joins,
}
use secure_swipe.Scale.Stored.{Reservation, is_owner, new_row}
use secure_swipe.Scale.Store.{reserve, reserve_key, fail, fail_row}
use secure_swipe.Scale.Built.{IsBuilt}
use secure_swipe.Scale.Chain.{IsGenuine, IsChained}
use secure_swipe.Scale.Backing.{
  IsBacked, AllJoined, KeepsCompleted, All-IsBacked-put, AllJoined-put, some-injective,
}

module _ {F : Type 0} where
  -- The tables after the migrations.
  abbrev pub seeded : Database F
  seeded = record {
    idempotency = [];
    audit_chain_heads =
        (audit_chain_id, record { last_sequence = 0; last_hash = genesis_hash }) ∷ [];
    audit_events = [];
  }

  fail_row_closed :
      (digest : String) (row : Row F) → row.state ≡ State.completed → fail_row digest row ≡ row
  fail_row_closed digest row done = ground arith

  fail_row_open :
      (digest : String) (row : Row F)
      → (fail_row digest row).state ≡ State.completed
      → (row.state ≡ State.completed) × (fail_row digest row ≡ row)
  fail_row_open digest row done = ground arith

module _ {F : Type 0} (env : Environment F) where
  pub record IsVerifiable (db : Database F) : Type 0 where
    pub head : Head
    pub one_head : db.audit_chain_heads ≡ (audit_chain_id, head) ∷ []
    pub chained : IsChained env 1 genesis_hash db.audit_events head.last_sequence head.last_hash
    pub distinct : IsDistinct db.idempotency
    pub backed : All (IsBacked db.idempotency) db.audit_events
    pub joined : AllJoined db.idempotency db.audit_events

  pub seeded-IsVerifiable : IsVerifiable seeded
  unfolding Dict.get
  seeded-IsVerifiable = record {
    head = record { last_sequence = 0; last_hash = genesis_hash };
    one_head = refl;
    chained = (refl, refl);
    distinct = tt;
    backed = tt;
    joined = λ key row here done. cc;
  }

  -- A row written without an event, over no completed row.
  put-IsVerifiable :
      (db : Database F) (key : String) (row : Row F)
      → KeepsCompleted db.idempotency key row
      → (row.state ≡ State.completed → any_joins key row db.audit_events ≡ true)
      → IsVerifiable db
      → IsVerifiable (record db { idempotency = Dict.put db.idempotency key row })
  put-IsVerifiable db key row keeps new v = record {
    head = v.head;
    one_head = v.one_head;
    chained = v.chained;
    distinct = put-IsDistinct db.idempotency key row v.distinct;
    backed = All-IsBacked-put db.idempotency key row db.audit_events keeps v.backed;
    joined =
        AllJoined-put db.idempotency key row db.audit_events db.audit_events new (λ k r h. h)
          v.joined;
  }

  reserve_key-IsVerifiable :
      (ttl now : ℤ) (key digest : String) (db : Database F)
      → IsVerifiable db
      → IsVerifiable (reserve_key env ttl now key digest db).0
  unfolding reserve_key
  reserve_key-IsVerifiable ttl now key digest db v =
      elim (Option-cases (Dict.get db.idempotency key)) [
        | inr (row, here) ↦ rw (here, reserve_key) v
        | inl absent ↦
            rw (absent, reserve_key)
              (put-IsVerifiable db key (new_row digest _) (λ old here done. cc) (λ h. cc) v)
      ]

  pub reserve-IsVerifiable :
      (ttl now : ℤ) (identifier digest : String) (db : Database F)
      → IsVerifiable db
      → IsVerifiable (reserve env ttl now identifier digest db).0
  unfolding reserve
  reserve-IsVerifiable ttl now identifier digest db v = elim (Bool-cases (is_sha256 digest)) [
    | inl good ↦ rw (good, reserve) (reserve_key-IsVerifiable ttl now _ digest db v)
    | inr bad ↦ rw (bad, reserve) v
  ]

  pub fail-IsVerifiable :
      (r : Reservation F) (db : Database F) → IsVerifiable db → IsVerifiable (fail r db).0
  unfolding fail
  fail-IsVerifiable r db v = elim (Bool-cases (is_owner r.kind)) [
    | inr other ↦ rw (other, fail) v
    | inl own ↦ elim (Option-cases (Dict.get db.idempotency r.key_digest)) [
      | inl absent ↦ rw (own, absent, fail) v
      | inr (row, here) ↦
          rw (own, here, fail)
            (put-IsVerifiable db r.key_digest (fail_row r.request_digest row)
              (λ old found done.
                let same : row ≡ old = some-injective (sym here ∙ found) in
                fail_row_closed r.request_digest row (ap (λ r. r.state) same ∙ done) ∙ same)
              (λ done.
                ap (λ t. any_joins r.key_digest t db.audit_events)
                  (fail_row_open r.request_digest row done).1
                ∙ v.joined r.key_digest row here (fail_row_open r.request_digest row done).0)
              v)
    ]
  ]

  pub IsBuilt-IsGenuine :
      (identifier : String) (n : ℕ) (previous key digest : String) (response : Response F) (at : ℤ)
      (e : AuditEvent F)
      → IsBuilt env identifier audit_chain_id n previous key digest response at e
      → IsGenuine env e
  IsBuilt-IsGenuine identifier n previous key digest response at e b =
      subst (IsGenuine env) (sym b.made) (record {
        response = response;
        built = record {
          positive = b.positive;
          digests = b.digests;
          identified = b.identified;
          made = refl;
        };
      })
