-- ===== src/Scale/Verify.antt =====
-- `verify_audit_chain` (api/postgres_audit.py) on the databases that the transactions reach.
use secure_swipe.Prelude.{
  ◌≡◌, refl, ap, ◌∙◌, String, some, List, length, string_eq, option_eq, beq_refl, arith,
  nat_beq_iff,
}
use secure_swipe.Prelude.Int.{ℤ}
use secure_swipe.Prelude.Dict
use secure_swipe.Prelude.Dict.{Dict, IsDistinct, put-IsDistinct, get-put_same}
use secure_swipe.Prelude.Result.{ok}
use secure_swipe.Prelude.SortedList.{sort-sorted}
use secure_swipe.Scale.Response.{Environment}
use secure_swipe.Scale.Audit.{Database, audit_chain_id, genesis_hash, seq_leb, verify_audit_chain}
use secure_swipe.Scale.Machine.{Operation, run, run-keeps}
use secure_swipe.Scale.Chain.{
  length-IsChained, IsChained-IsSorted, keep-IsChained, verify_rows-IsChained,
}
use secure_swipe.Scale.Backing.{consistent-IsBacked}
use secure_swipe.Scale.Verifiable.{IsVerifiable, seeded, seeded-IsVerifiable}
use secure_swipe.Scale.Invariant.{step-IsVerifiable}

module _ {F : Type 0} (env : Environment F) where
  verify_audit_chain-IsVerifiable :
      (db : Database F) (v : IsVerifiable env db)
      → verify_audit_chain env db ≡ ok (length db.audit_events, v.head.last_hash)
  unfolding verify_audit_chain
  verify_audit_chain-IsVerifiable db v =
      let (own, mine) =
        keep-IsChained env 1 v.head.last_sequence genesis_hash v.head.last_hash db.audit_events
          v.chained in
      let sorted = sort-sorted seq_leb db.audit_events (
        IsChained-IsSorted env 1 v.head.last_sequence genesis_hash v.head.last_hash db.audit_events
          v.chained) in
      let rows =
        verify_rows-IsChained env 1 v.head.last_sequence genesis_hash v.head.last_hash
          db.audit_events v.chained in
      let count =
        length-IsChained env 1 v.head.last_sequence genesis_hash v.head.last_hash db.audit_events
          v.chained in
      let same =
        consistent-IsBacked env db.idempotency db.audit_events v.distinct v.backed v.joined in
      rw (v.one_head, Dict.get)
        (rw (own, mine)
          (rw sorted (
            rw rows (
              rw
                ((nat_beq_iff v.head.last_sequence (length db.audit_events)).1
                  (omega (arith, count)))
                (rw (beq_refl v.head.last_hash) (rw same refl))))))

  head-IsVerifiable :
      (db : Database F) (v : IsVerifiable env db)
      → Dict.get db.audit_chain_heads audit_chain_id
        ≡ some (record { last_sequence = length db.audit_events; last_hash = v.head.last_hash })
  unfolding Dict.get
  head-IsVerifiable db v =
      let count =
        length-IsChained env 1 v.head.last_sequence genesis_hash v.head.last_hash db.audit_events
          v.chained in
      let same : v.head.last_sequence ≡ length db.audit_events = omega (arith, count) in
      ap (λ heads. Dict.get heads audit_chain_id) v.one_head
      ∙ ap (λ n. some (record { last_sequence = n; last_hash = v.head.last_hash })) same

  -- From the tables that the migrations leave, after any sequence of `reserve`,
  -- `complete_reservation` and `fail` transactions, at any times and with any arguments,
  -- `verify_audit_chain` succeeds: it returns the number of the audit events and the last hash,
  -- which are those of the stored chain head.
  pub verify_audit_chain-run :
      (ttl : ℤ) (ops : List (Operation F))
      → let db = run env ttl ops seeded in
        (hash : String) × (verify_audit_chain env db ≡ ok (length db.audit_events, hash))
        × (Dict.get db.audit_chain_heads audit_chain_id
            ≡ some (record { last_sequence = length db.audit_events; last_hash = hash }))
  verify_audit_chain-run ttl ops =
      let v =
        run-keeps env ttl (IsVerifiable env) (step-IsVerifiable env ttl) ops seeded
          (seeded-IsVerifiable env) in
      (v.head.last_hash, verify_audit_chain-IsVerifiable _ v, head-IsVerifiable _ v)
