-- ===== src/Durable/Steps.antt =====
-- Every operation moves every key's row by one of the moves.
use secure_swipe.Prelude.{
  ◌≡◌, inl, inr, refl, sym, ap, ◌∙◌, String, Bool, true, Option, none, some, contains, ◌==◌,
  string_eq, if◌then◌else◌, arith, eq_iff, Bool-cases, Option-cases,
}
use mathlib.Core.Option
use secure_swipe.Prelude.Dict
use secure_swipe.Prelude.Dict.{get-put}
use secure_swipe.Prelude.Text.{is_sha256, is_ascii}
use secure_swipe.Durable
use secure_swipe.Durable.{
  State, pending, completed, failed, unresolved, is_pending, allowed_decisions, Reservation, Row,
  Table, recover_row, update_all, update, new_row, reserve_state, reserve_row, key_digest,
  complete_row,
}
use secure_swipe.Durable.Machine.{
  Operation, reserve, complete, fail, recover, step, Move, stay, create, retry, finish, release,
  crash, get-update, get-update_all,
}

pending_of : (s : State) → is_pending s ≡ true → s ≡ pending
pending_of s h = ground arith

module _ (op : Operation) (k : String) where
  Move-update :
      (key : String) (f : Row → Row) (t : Table)
      → ((row : Row) → key ≡ k → Dict.get t key ≡ some row → Move op k (some row) (some (f row)))
      → Move op k (Dict.get t k) (Dict.get (update key f t) k)
  Move-update key f t move = elim (Bool-cases (key == k)) [
    | inl same ↦
        let e : key ≡ k = (eq_iff key k).0 same in
        elim (Option-cases (Dict.get t k)) [
          | inl absent ↦ stay (ground (arith, get-update key k f t, absent))
          | inr (row, here) ↦
              let after : Dict.get (update key f t) k ≡ some (f row) =
                ground (arith, get-update key k f t, here, same) in
              rw (here, after) (move row e (rw e here))
        ]
    | inr other ↦ stay (ground (arith, get-update key k f t, other))
  ]

  Move-reserve_state :
      (s : State) (key request_id digest now : String) (row : Row) (t : Table)
      → op ≡ reserve request_id digest now
      → row.input_digest_sha256 ≡ digest
      → row.state ≡ s
      → Dict.get t key ≡ some row
      → Move op k (Dict.get t k) (Dict.get (reserve_state s key row t).0 k)
  Move-reserve_state failed key request_id digest now row t made match e g =
      Move-update key (λ r. record r { state = pending; resolved_utc = none }) t
        (λ row' _ g'.
          let same : row' ≡ row = cc in
          retry request_id now row'
            (rw same (made ∙ ap (λ s. reserve request_id s now) (sym match)))
            (ap (λ r. r.state) same ∙ e) refl refl)
  Move-reserve_state _ key request_id digest now row t made match e g = stay refl

  Move-reserve_row :
      (o : Option Row) (key request_id digest now : String) (t : Table)
      → op ≡ reserve request_id digest now
      → is_sha256 digest ≡ true
      → Dict.get t key ≡ o
      → Move op k (Dict.get t k) (Dict.get (reserve_row o key digest now t).0 k)
  Move-reserve_row none key request_id digest now t made valid g = elim (Bool-cases (key == k)) [
    | inl same ↦
        create request_id digest now made valid (ground (arith, g, eq_iff key k))
          (ground (arith, get-put t key k (new_row digest now), same))
    | inr other ↦ stay (ground (arith, get-put t key k (new_row digest now), other))
  ]
  Move-reserve_row (some row) key request_id digest now t made valid g =
      elim (Bool-cases (row.input_digest_sha256 == digest)) [
        | inl match ↦ rw match (
            Move-reserve_state row.state key request_id digest now row t made
              ((eq_iff row.input_digest_sha256 digest).0 match) refl g)
        | inr differ ↦ rw differ (stay refl)
      ]

  Move-complete_row :
      (r : Reservation) (decision version hash now : String) (row : Row)
      → op ≡ complete r decision version hash now
      → r.owner ≡ true
      → r.key_sha256 ≡ k
      → contains allowed_decisions decision ≡ true
      → is_sha256 hash ≡ true
      → Move op k (some row) (some (complete_row decision version hash now row))
  Move-complete_row r decision version hash now row made owner here allowed valid =
      elim (Bool-cases (is_pending row.state)) [
        | inl p ↦
            finish r row decision version hash now made owner here (pending_of row.state p) allowed
              valid refl (rw p)
        | inr n ↦ stay (rw n)
      ]

  Move-recover_row :
      (now : String) (o : Option Row)
      → op ≡ recover now
      → Move op k o (Option.map (recover_row now) o)
  Move-recover_row now none made = stay refl
  Move-recover_row now (some row) made = elim (Bool-cases (is_pending row.state)) [
    | inl p ↦ crash row now made (pending_of row.state p) refl (rw p)
    | inr n ↦ stay (rw n)
  ]

module _ (sha256 : String → String) (t : Table) (k : String) where
  abbrev Moves : Operation → Type 0
  Moves op = Move op k (Dict.get t k) (Dict.get (step sha256 op t) k)

  same_table : (op : Operation) → step sha256 op t ≡ t → Moves op
  same_table op e = stay (ap (λ u. Dict.get u k) e)

  new_table :
      (op : Operation) (u : Table)
      → step sha256 op t ≡ u
      → Move op k (Dict.get t k) (Dict.get u k)
      → Moves op
  new_table op u e m = rw e m

  Move-reserve : (request_id digest now : String) → Moves (reserve request_id digest now)
  unfolding step Durable.reserve
  Move-reserve request_id digest now =
      let op = reserve request_id digest now in
      let key = sha256 request_id in
      elim (Bool-cases (is_sha256 digest)) [
        | inr invalid ↦ same_table op (ground (arith, invalid))
        | inl valid ↦ elim (Bool-cases (is_ascii request_id)) [
          | inr foreign ↦ same_table op (ground (arith, valid, foreign))
          | inl ascii ↦
              new_table op (reserve_row (Dict.get t key) key digest now t).0
                (ground (arith, valid, ascii))
                (Move-reserve_row op k (Dict.get t key) key request_id digest now t refl valid refl)
        ]
      ]

  Move-complete :
      (r : Reservation) (decision version hash now : String)
      → Moves (complete r decision version hash now)
  unfolding step Durable.complete
  Move-complete r decision version hash now =
      let op = complete r decision version hash now in
      let change = complete_row decision version hash now in
      elim (Bool-cases r.owner) [
        | inr other ↦ same_table op (ground (arith, other))
        | inl owner ↦ elim (Bool-cases (contains allowed_decisions decision)) [
          | inr refused ↦ same_table op (ground (arith, refused))
          | inl allowed ↦ elim (Bool-cases (is_sha256 hash)) [
            | inr invalid ↦ same_table op (ground (arith, invalid))
            | inl valid ↦
                new_table op (update r.key_sha256 change t) (ground (arith, owner, allowed, valid))
                  (Move-update op k r.key_sha256 change t (λ row here _.
                    Move-complete_row op k r decision version hash now row refl owner here allowed
                      valid))
          ]
        ]
      ]

  Move-fail : (r : Reservation) (durable : Bool) (now : String) → Moves (fail r durable now)
  unfolding step Durable.fail
  Move-fail r durable now =
      let op = fail r durable now in
      let change = λ (row : Row). record row {
        state = if durable then unresolved else failed;
        resolved_utc = some now;
      } in
      elim (Bool-cases r.owner) [
        | inr other ↦ same_table op (ground (arith, other))
        | inl owner ↦ new_table op (update r.key_sha256 change t) (ground (arith, owner)) (
            Move-update op k r.key_sha256 change t
              (λ row here _. release r row durable now refl owner here refl refl))
      ]

  -- Whatever the operation and its arguments, it moves every key's row by one of the moves.
  pub step-Move : (op : Operation) → Moves op
  step-Move (reserve request_id digest now) = Move-reserve request_id digest now
  step-Move (complete r decision version hash now) = Move-complete r decision version hash now
  step-Move (fail r durable now) = Move-fail r durable now
  step-Move (recover now) =
      unfold step Durable.recover in
      rw get-update_all (Move-recover_row (recover now) k now (Dict.get t k) refl)
