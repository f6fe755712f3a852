-- ===== src/Durable/Machine.antt =====
-- The store as a machine per key: the operations, and how each may move a key's row.
use secure_swipe.Prelude.{
  ◌≡◌, String, Bool, true, Option, none, some, List, [], ◌∷◌, contains, ◌==◌, string_eq,
  if◌then◌else◌, arith, eq_iff,
}
use mathlib.Core.Option
use secure_swipe.Prelude.Dict
use secure_swipe.Prelude.Dict.{get-put}
use secure_swipe.Prelude.Text.{is_sha256}
use secure_swipe.Durable
use secure_swipe.Durable.{
  State, pending, completed, failed, unresolved, is_pending, allowed_decisions, Reservation, Row,
  Table, recover_row, update_all, update, new_row, reserve_state, reserve_row, key_digest,
  complete_row,
}

pub get-update :
    (k j : String) (f : Row → Row) (t : Table)
    → Dict.get (update k f t) j ≡ (if k == j then Option.map f (Dict.get t j) else Dict.get t j)
unfolding update Dict.get
get-update k j f [] = ground arith
get-update k j f ((i, row) ∷ t) =
    ground (arith, get-update k j f t, eq_iff i k, eq_iff i j, eq_iff k j)

pub get-update_all :
    (f : Row → Row) (t : Table) (k : String)
    → Dict.get (update_all f t) k ≡ Option.map f (Dict.get t k)
unfolding update_all Dict.get
get-update_all f [] k = ground arith
get-update_all f ((j, row) ∷ t) k = ground (arith, get-update_all f t k)

pub data Operation : Type 0 where
  reserve : String → String → String → Operation
  complete : Reservation → String → String → String → String → Operation
  fail : Reservation → Bool → String → Operation
  recover : String → Operation

-- The table after an operation, returned or raised.
unfoldable pub step : (String → String) → Operation → Table → Table
step sha256 (reserve request_id digest now) t = (Durable.reserve sha256 request_id digest now t).0
step sha256 (complete r decision version hash now) t =
    (Durable.complete r decision version hash now t).0
step sha256 (fail r durable now) t = (Durable.fail r durable now t).0
step sha256 (recover now) t = (Durable.recover now t).0

unfoldable pub run : (String → String) → List Operation → Table → Table
run sha256 [] t = t
run sha256 (op ∷ ops) t = run sha256 ops (step sha256 op t)

-- How an operation may change the row of the key `k`, and by what request. Only a reservation
-- creates a row or opens a failed one again, only an owner's `complete` of this key finishes a
-- pending one, only an owner's `fail` of this key releases one, in whatever state, and only a
-- recovery gives a pending one up.
pub data Move (op : Operation) (k : String) (o o' : Option Row) : Type 0 where
  stay : o' ≡ o → Move op k o o'
  create :
      (request_id digest now : String)
      → op ≡ reserve request_id digest now
      → is_sha256 digest ≡ true
      → o ≡ none
      → o' ≡ some (new_row digest now)
      → Move op k o o'
  retry :
      (request_id now : String) (row : Row)
      → op ≡ reserve request_id row.input_digest_sha256 now
      → row.state ≡ failed
      → o ≡ some row
      → o' ≡ some (record row { state = pending; resolved_utc = none })
      → Move op k o o'
  finish :
      (r : Reservation) (row : Row) (decision version hash now : String)
      → op ≡ complete r decision version hash now
      → r.owner ≡ true
      → r.key_sha256 ≡ k
      → row.state ≡ pending
      → contains allowed_decisions decision ≡ true
      → is_sha256 hash ≡ true
      → o ≡ some row
      → o'
        ≡ some (record row {
          state = completed;
          decision = some decision;
          model_version = some version;
          audit_event_hash = some hash;
          resolved_utc = some now;
        })
      → Move op k o o'
  release :
      (r : Reservation) (row : Row) (durable : Bool) (now : String)
      → op ≡ fail r durable now
      → r.owner ≡ true
      → r.key_sha256 ≡ k
      → o ≡ some row
      → o'
        ≡ some
            (record row { state = if durable then unresolved else failed; resolved_utc = some now })
      → Move op k o o'
  crash :
      (row : Row) (now : String)
      → op ≡ recover now
      → row.state ≡ pending
      → o ≡ some row
      → o' ≡ some (record row { state = unresolved; resolved_utc = some now })
      → Move op k o o'
