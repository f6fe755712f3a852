-- ===== src/Registry.antt =====
-- The in-process idempotency registry (api/audit.py, IdempotencyRegistry): requests by key, and
-- entries as shared objects that reservations refer to by number. `asyncio.Event` is the flag
-- `ready`; a call that would wait answers `waiting`. `V` and `X` are the results and the errors.
use secure_swipe.Prelude.{
  ◌≡◌, ℕ, suc, ◌&&◌, ◌||◌, not, String, Bool, true, false, Option, none, some, List, [], ◌∷◌,
  length, ◌==◌, string_eq, nat_eq, option_eq, if◌then◌else◌, leb, nat_beq,
}
use secure_swipe.Prelude.Dict
use secure_swipe.Prelude.Dict.{Dict}
use secure_swipe.Prelude.Result.{Result, ok, err}
use secure_swipe.Prelude.Text.{codes, every, is_digit, is_sha256}
pub mod Owner
pub mod Published
mod Tests

pub data RegistryError (X : Type 0) : Type 0 where
  bad_request_id bad_digest conflict not_owner owner_replays waiting : RegistryError X
  raised : X → RegistryError X

pub record Entry (V X : Type 0) : Type 0 where
  pub input_digest_sha256 : String
  pub ready : Bool
  pub result : Option V
  pub error : Option X

pub record Reservation : Type 0 where
  pub key_sha256 : String
  pub owner : Bool
  pub entry : ℕ

pub record Registry (V X : Type 0) : Type 0 where
  pub entries : Dict String ℕ
  pub heap : Dict ℕ (Entry V X)
  pub next : ℕ

pub data Operation (V X : Type 0) : Type 0 where
  reserve_op : String → String → Operation V X
  complete_op : Reservation → V → Operation V X
  fail_op : Reservation → X → Operation V X

-- `[A-Za-z0-9._-]`
abbrev pub is_id_char : ℕ → Bool
is_id_char c =
    is_digit c
    || (leb 65 c && leb c 90)
    || (leb 97 c && leb c 122)
    || nat_beq c 46
    || nat_beq c 95
    || nat_beq c 45

unfoldable pub is_request_id : String → Bool
unfolding codes every
is_request_id s =
    every is_id_char (codes s) && leb 1 (length (codes s)) && leb (length (codes s)) 64

unfoldable pub idempotency_key_sha256 :
    {X : Type 0} → (String → String) → String → Result (RegistryError X) String
unfolding is_request_id
idempotency_key_sha256 sha256 request_id =
    if is_request_id request_id then ok (sha256 request_id) else err bad_request_id

module _ {V X : Type 0} where
  abbrev pub new_entry : String → Entry V X
  new_entry digest = record {
    input_digest_sha256 = digest;
    ready = false;
    result = none;
    error = none;
  }

  -- Under the lock, with the key computed.
  unfoldable pub reserve_key :
      String → String → Registry V X → Registry V X × Result (RegistryError X) Reservation
  unfolding Dict.get Dict.put
  reserve_key key digest r = elim (Dict.get r.entries key) [
    | none ↦ (
      record {
        entries = Dict.put r.entries key r.next;
        heap = Dict.put r.heap r.next (new_entry digest);
        next = suc r.next;
      },
      ok (record { key_sha256 = key; owner = true; entry = r.next }),
    )
    | some n ↦ elim (Dict.get r.heap n) [
      | none ↦ (r, err waiting)
      | some e ↦
          if not (e.input_digest_sha256 == digest)
          then (r, err conflict)
          else (r, ok (record { key_sha256 = key; owner = false; entry = n }))
    ]
  ]

  unfoldable pub reserve :
      (String → String)
      → String
      → String
      → Registry V X
      → Registry V X × Result (RegistryError X) Reservation
  unfolding idempotency_key_sha256 reserve_key
  reserve sha256 request_id digest r = elim (idempotency_key_sha256 sha256 request_id) [
    | err e ↦ (r, err e)
    | ok key ↦ if not (is_sha256 digest) then (r, err bad_digest) else reserve_key key digest r
  ]

module _ {V X : Type 0} where
  unfoldable pub replay : Reservation → Registry V X → Result (RegistryError X) (Option V)
  unfolding Dict.get
  replay s r = if s.owner then err owner_replays else elim (Dict.get r.heap s.entry) [
    | none ↦ err waiting
    | some e ↦
        if not e.ready
        then err waiting
        else elim e.error [ some x ↦ err (raised x) | none ↦ ok e.result ]
  ]

  unfoldable pub change : ℕ → (Entry V X → Entry V X) → Dict ℕ (Entry V X) → Dict ℕ (Entry V X)
  change n f [] = []
  change n f ((m, e) ∷ h) =
      let rest = change n f h in if m == n then (m, f e) ∷ h else (m, e) ∷ rest

  unfoldable pub complete :
      Reservation → V → Registry V X → Registry V X × Result (RegistryError X) (Unit {0})
  unfolding change
  complete s v r = if not s.owner then (r, err not_owner) else (
    record r { heap = change s.entry (λ e. record e { result = some v; ready = true }) r.heap },
    ok tt,
  )

  unfoldable pub fail :
      Reservation → X → Registry V X → Registry V X × Result (RegistryError X) (Unit {0})
  unfolding change Dict.get Dict.remove
  fail s x r = if not s.owner then (r, err not_owner) else (
    record r {
      entries =
          if Dict.get r.entries s.key_sha256 == some s.entry
          then Dict.remove r.entries s.key_sha256
          else r.entries;
      heap = change s.entry (λ e. record e { error = some x; ready = true }) r.heap;
    },
    ok tt,
  )

  unfoldable pub step : (String → String) → Operation V X → Registry V X → Registry V X
  unfolding reserve complete fail
  step sha256 (reserve_op request_id digest) r = (reserve sha256 request_id digest r).0
  step sha256 (complete_op s v) r = (complete s v r).0
  step sha256 (fail_op s x) r = (fail s x r).0

  unfoldable pub run : (String → String) → List (Operation V X) → Registry V X → Registry V X
  unfolding step
  run sha256 [] r = r
  run sha256 (op ∷ ops) r = run sha256 ops (step sha256 op r)
