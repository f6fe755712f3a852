-- ===== src/Scale/Lifecycle.antt =====
-- The life of a reservation (api/postgres_idempotency.py): one owner, and no completion after
-- the expiry.
use secure_swipe.Prelude.{
  ◌≡◌, ◌⊎◌, refl, sym, ◌∙◌, inl, inr, String, Bool, true, false, some, List, All, ◌==◌, string_eq,
  arith, Bool-cases, Option-cases, beq_refl,
}
use secure_swipe.Prelude.Int.{ℤ, leb_ℤ, ◌+ℤ◌}
use secure_swipe.Prelude.Dict
use secure_swipe.Prelude.Dict.{Dict, get-put_same}
use secure_swipe.Prelude.Result.{Result, ok, err}
use secure_swipe.Prelude.Text.{is_sha256}
use secure_swipe.Scale.Response.{Environment}
use secure_swipe.Scale.Audit.{State, Row, Database}
use secure_swipe.Scale.Stored.{
  ScaleError, Reservation, stale, failed, is_owner, is_stale, from_state, from_row, new_row,
  bad_request_digest, conflict,
}
use secure_swipe.Scale.Store.{reserve, reserve_key}
use secure_swipe.Scale.Machine.{Operation, run}
use secure_swipe.Scale.Transition.{IsBound, NotBefore}
use secure_swipe.Scale.Keys.{run-IsBound, run-IsExpired}
use secure_swipe.Scale.Settled.{Reads, from_row-Reads}

leb_trans : (a b c : ℤ) → leb_ℤ a b ≡ true → leb_ℤ b c ≡ true → leb_ℤ a c ≡ true
leb_trans a b c h k = ground arith

true_not_false : true ≡ false → ⊥
true_not_false h = cc

module _ {F : Type 0} where
  -- Whether the result is the ownership of the key.
  abbrev pub owns : Result ScaleError (Reservation F) → Bool
  owns (err e) = false
  owns (ok r) = is_owner r.kind

  -- The answers that carry no response and make no owner.
  abbrev pub IsRefusal : Result ScaleError (Reservation F) → Type 0
  IsRefusal (err e) = (e ≡ bad_request_digest) ⊎ (e ≡ conflict)
  IsRefusal (ok r) = (r.kind ≡ stale) ⊎ (r.kind ≡ failed)

module _ {F : Type 0} (env : Environment F) (ttl : ℤ) where
  open env use {hmac_key}

  Reads-owns :
      (now : ℤ) (row : Row F) (key digest : String) (m : Result ScaleError (Reservation F))
      → Reads env now row key digest m
      → owns m ≡ false
  Reads-owns now row key digest (err e) h = refl
  Reads-owns now row key digest (ok r) h = h.3

  bound-owns :
      (now : ℤ) (identifier digest bound : String) (db : Database F)
      → IsBound bound (Dict.get db.idempotency (hmac_key identifier))
      → owns (reserve env ttl now identifier digest db).1 ≡ false
  unfolding reserve reserve_key
  bound-owns now identifier digest bound db b = elim (Bool-cases (is_sha256 digest)) [
    | inr bad ↦ rw (bad, reserve) refl
    | inl good ↦ rw good (
        rw (b.here, reserve_key)
          (Reads-owns now b.row (hmac_key identifier) digest _
            (from_row-Reads env now b.row (hmac_key identifier) digest)))
  ]

  -- Who has become the owner has left a row.
  owner-IsBound :
      (now : ℤ) (identifier digest : String) (db : Database F)
      → owns (reserve env ttl now identifier digest db).1 ≡ true
      → IsBound digest
          (Dict.get (reserve env ttl now identifier digest db).0.idempotency (hmac_key identifier))
  unfolding reserve reserve_key
  owner-IsBound now identifier digest db h = elim (Bool-cases (is_sha256 digest)) [
    | inr bad ↦
        let refused : owns (reserve env ttl now identifier digest db).1 ≡ false =
          rw (bad, reserve) refl in
        absurd (true_not_false (sym h ∙ refused))
    | inl good ↦ elim (Option-cases (Dict.get db.idempotency (hmac_key identifier))) [
      | inr (row, here) ↦ absurd (
          true_not_false (
            sym h
            ∙ bound-owns now identifier digest row.request_digest db
                (record { row = row; here = here; same = refl })))
      | inl absent ↦
          rw (good, reserve, absent, reserve_key)
            (record {
              row = new_row digest (now +ℤ ttl);
              here = get-put_same db.idempotency _ _ _ (beq_refl (hmac_key identifier));
              same = refl;
            })
    ]
  ]

  -- At most one call of `reserve` is ever answered that it owns a request id: after one is, then
  -- after any transactions, at any time and for any digest, no other is.
  pub reserve-one_owner :
      (now later : ℤ) (identifier digest other : String) (db : Database F)
      (ops : List (Operation F))
      → owns (reserve env ttl now identifier digest db).1 ≡ true
      → owns
          (reserve env ttl later identifier other
            (run env ttl ops (reserve env ttl now identifier digest db).0)).1
        ≡ false
  reserve-one_owner now later identifier digest other db ops h =
      bound-owns later identifier other digest _ (
        run-IsBound env ttl (hmac_key identifier) digest ops _
          (owner-IsBound now identifier digest db h))

  from_state-IsRefusal :
      (s : State) (later : ℤ) (row : Row F) (key digest : String)
      → (s ≡ State.reserved) ⊎ (s ≡ State.failed)
      → is_stale later row ≡ true
      → IsRefusal (from_state env s later row key digest)
  from_state-IsRefusal State.reserved later row key digest open_row late = rw late (inl refl)
  from_state-IsRefusal State.failed later row key digest open_row late = inr refl
  from_state-IsRefusal State.completed later row key digest (inl h) late = cc
  from_state-IsRefusal State.completed later row key digest (inr h) late = cc

  from_row-IsRefusal :
      (later : ℤ) (row : Row F) (key digest : String)
      → (row.state ≡ State.reserved) ⊎ (row.state ≡ State.failed)
      → is_stale later row ≡ true
      → IsRefusal (from_row env later row key digest)
  unfolding from_row
  from_row-IsRefusal later row key digest open_row late =
      elim (Bool-cases (row.request_digest == digest)) [
        | inr other ↦ rw (other, from_row) (inr refl)
        | inl own ↦
            rw (own, from_row) (from_state-IsRefusal row.state later row key digest open_row late)
      ]

  -- A reservation that is still open when it expires is lost: if the row is `reserved` and has
  -- expired at `now`, then after any transactions of which no completion reads an earlier time,
  -- `reserve` at a later time answers that the key is stale or failed, or refuses the digest, and
  -- changes nothing.
  pub reserve-expired :
      (now later : ℤ) (identifier digest : String) (row : Row F) (db : Database F)
      (ops : List (Operation F))
      → Dict.get db.idempotency (hmac_key identifier) ≡ some row
      → row.state ≡ State.reserved
      → is_stale now row ≡ true
      → All (NotBefore now) ops
      → leb_ℤ now later ≡ true
      → let answer = reserve env ttl later identifier digest (run env ttl ops db) in
        IsRefusal answer.1 × (answer.0 ≡ run env ttl ops db)
  unfolding reserve reserve_key
  reserve-expired now later identifier digest row db ops here open_row late after order =
      let (r, found, expired, state) =
        run-IsExpired env ttl (hmac_key identifier) now ops db after
          (row, here, late, inl open_row) in
      elim (Bool-cases (is_sha256 digest)) [
        | inr bad ↦ rw (bad, reserve) (inl refl, refl)
        | inl good ↦ rw good (
            rw (found, reserve_key)
              (
                from_row-IsRefusal later r (hmac_key identifier) digest state
                    (leb_trans r.reservation_expires_at now later expired order),
                refl,
              ))
      ]
