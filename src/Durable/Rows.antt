-- ===== src/Durable/Rows.antt =====
-- Failures that open a key again, and the rows of a table as a whole.
use secure_swipe.Prelude.{
  ℕ, ◌+◌, ◌≡◌, refl, sym, ◌∙◌, String, true, false, Option, some, List, [], ◌∷◌, contains,
  string_eq, arith, eq_iff,
}
use secure_swipe.Prelude.Dict
use secure_swipe.Prelude.Dict.{get-put}
use secure_swipe.Prelude.Text.{is_sha256, is_ascii}
use secure_swipe.Prelude.Result.{ok}
use secure_swipe.Durable
use secure_swipe.Durable.{
  State, pending, completed, failed, unresolved, is_pending, allowed_decisions, Reservation, Row,
  Table, owned, replayed, DurableError, unresolved_request, in_flight, idempotency_conflict, update,
  new_row, reserve_state, reserve_row, complete_row, update_all, recover_row, pending_count,
}
use secure_swipe.Durable.Steps.{step-Move}
use secure_swipe.Durable.Machine.{
  Operation, step, run, Move, stay, create, retry, finish, release, crash, get-update,
}

-- If an owner's reservation reports a failure with no durable audit event, its key is open again
-- in whatever state its row is, a completed or unresolved one included: the same request, with an
-- ASCII id and the row's own valid digest, is then given to a new owner.
pub fail-reserve :
    (sha256 : String → String) (id now now' : String) (t : Table) (row : Row) (r : Reservation)
    → is_sha256 row.input_digest_sha256 ≡ true
    → is_ascii id ≡ true
    → Dict.get t (sha256 id) ≡ some row
    → r.owner ≡ true
    → r.key_sha256 ≡ sha256 id
    → (Durable.reserve sha256 id row.input_digest_sha256 now' (Durable.fail r false now t).0).1
      ≡ ok (owned (sha256 id))
unfolding Durable.reserve Durable.fail
fail-reserve sha256 id now now' t row r valid ascii h owner here =
    let f = λ (w : Row). record w { state = failed; resolved_utc = some now } in
    ground (
      arith,
      valid,
      ascii,
      h,
      get-update r.key_sha256 (sha256 id) f t,
      eq_iff r.key_sha256 (sha256 id),
      eq_iff row.input_digest_sha256 row.input_digest_sha256,
    )

-- The rows that say they are completed.
pub record IsSoundRow (row : Row) : Type 0 where
  pub sound :
      row.state ≡ completed
      → (decision hash : String) × (row.decision ≡ some decision)
        × (contains allowed_decisions decision ≡ true)
        × (row.audit_event_hash ≡ some hash)
        × (is_sha256 hash ≡ true)

abbrev pub IsSound : Table → Type 0
IsSound t = (k : String) (row : Row) → Dict.get t k ≡ some row → IsSoundRow row

Move-IsSound :
    (op : Operation) (k : String) {o o' : Option Row} (row : Row)
    → Move op k o o'
    → ((w : Row) → o ≡ some w → IsSoundRow w)
    → o' ≡ some row
    → IsSoundRow row
Move-IsSound op k row (stay e) s h = s row (sym e ∙ h)
Move-IsSound op k row (create i d now m v a b) s h = record { sound = λ c. absurd (ground arith) }
Move-IsSound op k row (retry i now r m st a b) s h = record { sound = λ c. absurd (ground arith) }
Move-IsSound op k row (finish r w d v x now m ow ke st al va a b) s h = record {
  sound = λ c. (d, x, ground arith, al, ground arith, va);
}
Move-IsSound op k row (release r w du now m ow ke a b) s h = record {
  sound = λ c. absurd (ground arith);
}
Move-IsSound op k row (crash w now m st a b) s h = record { sound = λ c. absurd (ground arith) }

-- From a table where this holds, every row that ever says it is completed has a decision of the allowlist and the digest of an
-- audit event, whatever the operations and their arguments.
pub run-IsSound :
    (sha256 : String → String) (ops : List Operation) (t : Table)
    → IsSound t
    → IsSound (run sha256 ops t)
unfolding run
run-IsSound sha256 [] t s = s
run-IsSound sha256 (op ∷ ops) t s =
    run-IsSound sha256 ops (step sha256 op t)
      (λ k row h. Move-IsSound op k row (step-Move sha256 t k op) (s k) h)

pub unresolved_count : Table → ℕ
unresolved_count [] = 0
unresolved_count ((_, row) ∷ t) = elim row.state [ unresolved ↦ 1 | _ ↦ 0 ] + unresolved_count t

-- A restart leaves no row pending, and reports how many rows it gave up as unresolved.
pub recover-pending_count :
    (now : String) (t : Table)
    → (pending_count (Durable.recover now t).0 ≡ 0)
      × (unresolved_count (Durable.recover now t).0
          ≡ unresolved_count t + (Durable.recover now t).1)
unfolding Durable.recover unresolved_count
recover-pending_count now [] = (refl, refl)
recover-pending_count now ((k, row) ∷ t) = ground (arith, recover-pending_count now t)
