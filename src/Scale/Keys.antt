-- ===== src/Scale/Keys.antt =====
-- What any sequence of transactions keeps of the row of a key
-- (api/postgres_idempotency.py).
use secure_swipe.Prelude.{
  ◌≡◌, refl, ap, ◌∙◌, inr, String, true, false, Option, some, List, All, string_eq,
}
use secure_swipe.Prelude.Int.{ℤ}
use secure_swipe.Prelude.Dict
use secure_swipe.Prelude.Dict.{Dict, get-put_same, get-put_other}
use secure_swipe.Scale.Response.{Environment}
use secure_swipe.Scale.Audit.{State, Row, Database}
use secure_swipe.Scale.Stored.{is_reserved, is_stale}
use secure_swipe.Scale.Backing.{some-injective}
use secure_swipe.Scale.Machine.{Operation, run}
use secure_swipe.Scale.Built.{completed_row}
use secure_swipe.Scale.Transition.{
  run-Transition_all, reserved_not_closed, none_not_some, stale_later, IsClosed, IsBound, IsExpired,
  NotBefore, Transition, create, finished, released, run-Transition, stay,
}

module _ {F : Type 0} (env : Environment F) (ttl : ℤ) (j : String) where
  Transition-IsClosed :
      (row : Row F) (op : Operation F) (o p : Option (Row F))
      → Transition env ttl j op o p
      → IsClosed row o
      → IsClosed row p
  Transition-IsClosed row op o p (stay _ _) h = h
  Transition-IsClosed row op o p (create now identifier digest key) h = cc
  Transition-IsClosed row op o p (finished now identifier at r response old receipt key same s f)
        h =
      absurd (reserved_not_closed old row s (some-injective h.0) h.1)
  Transition-IsClosed row op o p (released r old key same s) h =
      absurd (reserved_not_closed old row s (some-injective h.0) h.1)

  -- A completed or failed row is never written again.
  pub run-closed :
      (ops : List (Operation F)) (db : Database F) (row : Row F)
      → Dict.get db.idempotency j ≡ some row
      → is_reserved row.state ≡ false
      → Dict.get (run env ttl ops db).idempotency j ≡ some row
  run-closed ops db row here closed =
      (run-Transition_all env ttl j (IsClosed row) (Transition-IsClosed row) ops db
        (here, closed)).0

  Transition-IsBound :
      (digest : String) (op : Operation F) (o p : Option (Row F))
      → Transition env ttl j op o p
      → IsBound digest o
      → IsBound digest p
  Transition-IsBound digest op o p (stay _ _) b = b
  Transition-IsBound digest op o p (create now identifier d key) b = absurd (none_not_some b.here)
  Transition-IsBound digest op o p (finished now identifier at r response old receipt key same s f)
        b =
      record {
        row = completed_row env old response receipt;
        here = refl;
        same = ap (λ r. r.request_digest) (some-injective b.here) ∙ b.same;
      }
  Transition-IsBound digest op o p (released r old key same s) b = record {
    row = record old { state = State.failed };
    here = refl;
    same = ap (λ r. r.request_digest) (some-injective b.here) ∙ b.same;
  }

  -- A key that has a row keeps one, with the same request digest.
  pub run-IsBound :
      (digest : String) (ops : List (Operation F)) (db : Database F)
      → IsBound digest (Dict.get db.idempotency j)
      → IsBound digest (Dict.get (run env ttl ops db).idempotency j)
  run-IsBound digest ops db b =
      run-Transition_all env ttl j (IsBound digest) (Transition-IsBound digest) ops db b

  Transition-IsExpired :
      (now : ℤ) (op : Operation F) (o p : Option (Row F))
      → NotBefore now op
      → Transition env ttl j op o p
      → IsExpired now o
      → IsExpired now p
  Transition-IsExpired now op o p q (stay _ _) e = e
  Transition-IsExpired now op o p q (create t identifier d key) e = absurd (none_not_some e.1)
  Transition-IsExpired now op o p q
        (finished later identifier at r response old receipt key same s f) e =
      let stale : is_stale now old ≡ true = ap (is_stale now) (some-injective e.1) ∙ e.2 in
      absurd (stale_later old.reservation_expires_at now later stale q f)
  Transition-IsExpired now op o p q (released r old key same s) e = (
    record old { state = State.failed },
    refl,
    ap (is_stale now) (some-injective e.1) ∙ e.2,
    inr refl,
  )

  pub run-IsExpired :
      (now : ℤ) (ops : List (Operation F)) (db : Database F)
      → All (NotBefore now) ops
      → IsExpired now (Dict.get db.idempotency j)
      → IsExpired now (Dict.get (run env ttl ops db).idempotency j)
  run-IsExpired now =
      run-Transition env ttl j (IsExpired now) (NotBefore now) (Transition-IsExpired now)
