-- ===== src/Durable/Reserving.antt =====
-- `reserve`, `complete` and `recover` on a row in a known state.
use secure_swipe.Prelude.{
  ◌≡◌, inl, inr, refl, ◌∙◌, String, true, none, some, ◌==◌, string_eq, if◌then◌else◌, arith, eq_iff,
  Option-cases,
}
use secure_swipe.Prelude.Dict
use secure_swipe.Prelude.Dict.{get-put}
use secure_swipe.Prelude.Text.{is_sha256, is_ascii}
use secure_swipe.Prelude.Result.{ok, err}
use secure_swipe.Durable
use secure_swipe.Durable.{
  State, pending, completed, failed, unresolved, is_pending, allowed_decisions, Reservation, Row,
  Table, owned, replayed, DurableError, unresolved_request, in_flight, idempotency_conflict, update,
  new_row, reserve_state, reserve_row, complete_row, update_all, recover_row, pending_count,
}
use secure_swipe.Durable.Machine.{get-update, get-update_all}
use secure_swipe.Durable.Persistence.{is_held}

-- The refusal of a request that is in flight or unresolved.
abbrev pub refusal : State → DurableError
refusal pending = in_flight
refusal _ = unresolved_request

module _ (sha256 : String → String) (id digest now : String) (t : Table) where
  -- What an owner reservation leaves behind: a valid digest, and a pending row that holds it.
  pub record IsReserved : Type 0 where
    pub valid : is_sha256 digest ≡ true
    pub ascii : is_ascii id ≡ true
    pub row : Row
    pub here : Dict.get (Durable.reserve sha256 id digest now t).0 (sha256 id) ≡ some row
    pub held : row.state ≡ pending
    pub same : row.input_digest_sha256 ≡ digest

  pub reserve-owned :
      (Durable.reserve sha256 id digest now t).1 ≡ ok (owned (sha256 id)) → IsReserved
  unfolding Durable.reserve
  reserve-owned h = elim (Option-cases (Dict.get t (sha256 id))) [
    | inl absent ↦ record {
      valid = ground arith;
      ascii = ground arith;
      row = new_row digest now;
      here = ground (
        arith,
        get-put t (sha256 id) (sha256 id) (new_row digest now),
        eq_iff (sha256 id) (sha256 id),
        absent,
      );
      held = refl;
      same = refl;
    }
    | inr (row, found) ↦ record {
      valid = ground arith;
      ascii = ground arith;
      row = record row { state = pending; resolved_utc = none };
      here = ground (
        arith,
        get-update (sha256 id) (sha256 id) (λ r. record r { state = pending; resolved_utc = none })
            t,
        eq_iff (sha256 id) (sha256 id),
        found,
      );
      held = refl;
      same = ground (arith, found, eq_iff row.input_digest_sha256 digest);
    }
  ]

  pub reserve-completed :
      (row : Row)
      → is_sha256 digest ≡ true
      → is_ascii id ≡ true
      → Dict.get t (sha256 id) ≡ some row
      → row.state ≡ completed
      → (original : String) → row.input_digest_sha256 ≡ original
      → Durable.reserve sha256 id digest now t ≡ (
        t,
        if original == digest then ok (replayed (sha256 id) row) else err idempotency_conflict,
      )
  unfolding Durable.reserve
  reserve-completed row valid ascii h c original same = ground (arith, valid, ascii, h)

  pub reserve-held :
      (row : Row)
      → is_sha256 digest ≡ true
      → is_ascii id ≡ true
      → Dict.get t (sha256 id) ≡ some row
      → is_held row.state ≡ true
      → Durable.reserve sha256 id digest now t ≡ (
        t,
        err (if row.input_digest_sha256 == digest then refusal row.state else idempotency_conflict),
      )
  unfolding Durable.reserve
  reserve-held row valid ascii h c = ground (arith, valid, ascii, h)

pub reserve-unresolved :
    (sha256 : String → String) (id digest now : String) (t : Table) (row : Row)
    → is_sha256 digest ≡ true
    → is_ascii id ≡ true
    → Dict.get t (sha256 id) ≡ some row
    → row.state ≡ unresolved
    → row.input_digest_sha256 ≡ digest
    → Durable.reserve sha256 id digest now t ≡ (t, err unresolved_request)
unfolding Durable.reserve
reserve-unresolved sha256 id digest now t row valid ascii h u same =
    ground (arith, valid, ascii, h, eq_iff row.input_digest_sha256 digest)

pub recovered :
    (now : String) (t : Table) (k : String) (row : Row)
    → Dict.get t k ≡ some row
    → Dict.get (Durable.recover now t).0 k ≡ some (recover_row now row)
unfolding Durable.recover
recovered now t k row h = get-update_all (recover_row now) t k ∙ rw h

pub recover_row-unresolved :
    (now : String) (row : Row) → is_held row.state ≡ true → (recover_row now row).state ≡ unresolved
recover_row-unresolved now row h = ground arith

pub recover_row-digest :
    (now : String) (row : Row) → (recover_row now row).input_digest_sha256 ≡ row.input_digest_sha256
recover_row-digest now row = ground arith

pub complete-owned :
    (k decision version hash now : String) (t : Table) (row : Row)
    → Dict.get t k ≡ some row
    → row.state ≡ pending
    → (Durable.complete (owned k) decision version hash now t).1 ≡ ok tt
    → Dict.get (Durable.complete (owned k) decision version hash now t).0 k
      ≡ some (record row {
        state = completed;
        decision = some decision;
        model_version = some version;
        audit_event_hash = some hash;
        resolved_utc = some now;
      })
unfolding Durable.complete
complete-owned k decision version hash now t row h p f =
    ground (arith, h, p, get-update k k (complete_row decision version hash now) t, eq_iff k k)
