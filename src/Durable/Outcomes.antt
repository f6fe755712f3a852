-- ===== src/Durable/Outcomes.antt =====
-- What a caller of the store can rely on: single ownership, crashes and replays.
use secure_swipe.Prelude.{
  ◌≡◌, refl, ◌∙◌, String, true, false, some, List, ◌==◌, string_eq, if◌then◌else◌,
}
use secure_swipe.Prelude.Dict
use secure_swipe.Prelude.Dict.{get-put}
use secure_swipe.Prelude.Text.{is_sha256}
use secure_swipe.Prelude.Result.{ok, err}
use secure_swipe.Durable
use secure_swipe.Durable.{
  State, pending, completed, failed, unresolved, is_pending, allowed_decisions, Reservation, Row,
  Table, owned, replayed, DurableError, unresolved_request, in_flight, idempotency_conflict, update,
  new_row, reserve_state, reserve_row, complete_row, update_all, recover_row, pending_count,
}
use secure_swipe.Durable.Machine.{Operation, run}
use secure_swipe.Durable.Persistence.{
  run-final, run-Held, run-pending, NoFail, Untouched, Undisturbed,
}
use secure_swipe.Durable.Reserving.{
  IsReserved, reserve-owned, reserve-completed, reserve-held, reserve-unresolved, recovered,
  recover_row-unresolved, recover_row-digest, complete-owned,
}

module _ (sha256 : String → String) (id digest now : String) (t : Table)
    (reserved : (Durable.reserve sha256 id digest now t).1 ≡ ok (owned (sha256 id))) where
  abbrev after_reserve : Table
  after_reserve = (Durable.reserve sha256 id digest now t).0

  got : IsReserved sha256 id digest now t
  got = reserve-owned sha256 id digest now t reserved

  -- While a reserved key is neither completed nor failed, nobody is given it again: not by any
  -- reservation, on any input, and not after any number of crashes.
  pub single_owner :
      (ops : List Operation) (digest' now' : String)
      → Untouched (sha256 id) ops
      → is_sha256 digest' ≡ true
      → (e : DurableError) × (Durable.reserve sha256 id digest' now' (run sha256 ops after_reserve)
          ≡ (run sha256 ops after_reserve, err e))
  single_owner ops digest' now' n valid =
      let g = got in
      let (row, here, held, same) =
        run-Held sha256 (sha256 id) ops after_reserve digest (g.row, g.here, rw g.held refl, g.same)
          n in
      (
        _,
        reserve-held sha256 id digest' now' (run sha256 ops after_reserve) row valid g.ascii here
            held,
      )

  -- A reserved key that a restart finds pending stays closed: its request is refused as
  -- unresolved from then on, until a failure is reported for it.
  pub crash_closes :
      (before after : List Operation) (restart now' : String)
      → Untouched (sha256 id) before
      → NoFail (sha256 id) after
      → let t' = run sha256 after (Durable.recover restart (run sha256 before after_reserve)).0 in
        Durable.reserve sha256 id digest now' t' ≡ (t', err unresolved_request)
  crash_closes before after restart now' n m =
      let g = got in
      let key = sha256 id in
      let (row, here, held, same) =
        run-Held sha256 key before after_reserve digest (g.row, g.here, rw g.held refl, g.same) n in
      let t1 = run sha256 before after_reserve in
      let closed = recover_row restart row in
      let found = recovered restart t1 key row here in
      let gone = recover_row-unresolved restart row held in
      let kept =
        run-final sha256 key after (Durable.recover restart t1).0 closed found (rw gone refl) m in
      reserve-unresolved sha256 id digest now' (run sha256 after (Durable.recover restart t1).0)
        closed g.valid g.ascii kept gone (recover_row-digest restart row ∙ same)

  -- Once its owner has completed a request, after any operations but a restart and a failure or
  -- completion reported for this key, the same input gets the recorded decision, model version
  -- and audit hash back and changes nothing, and other input is refused as a conflict, after any
  -- further operations, crashes included, but a failure reported for this key.
  pub complete-reserve :
      (before : List Operation) (decision version hash done : String) (after : List Operation)
      (digest' now' : String)
      → Undisturbed (sha256 id) before
      → let t1 =
          Durable.complete
            (owned (sha256 id))
            decision
            version
            hash
            done
            (run sha256 before after_reserve) in
        t1.1 ≡ ok tt
        → NoFail (sha256 id) after
        → is_sha256 digest' ≡ true
        → Durable.reserve sha256 id digest' now' (run sha256 after t1.0) ≡ (
          run sha256 after t1.0,
          if digest == digest'
              then ok (record {
                key_sha256 = sha256 id;
                owner = false;
                state = completed;
                decision = some decision;
                model_version = some version;
                audit_event_hash = some hash;
              })
              else err idempotency_conflict,
        )
  complete-reserve before decision version hash done after digest' now' calm finished n valid =
      let g = got in
      let key = sha256 id in
      let final = record g.row {
        state = completed;
        decision = some decision;
        model_version = some version;
        audit_event_hash = some hash;
        resolved_utc = some done;
      } in
      let open_row = run-pending sha256 key before after_reserve g.row g.here g.held calm in
      let t0 = run sha256 before after_reserve in
      let t1 = (Durable.complete (owned key) decision version hash done t0).0 in
      let found : Dict.get t1 key ≡ some final =
        complete-owned key decision version hash done t0 g.row open_row g.held finished in
      reserve-completed sha256 id digest' now' (run sha256 after t1) final valid g.ascii
        (run-final sha256 key after t1 final found refl n) refl digest g.same
