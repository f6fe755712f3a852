-- ===== src/Registry/Owner.antt =====
-- One owner for each key, and the published result for everyone else.
use secure_swipe.Prelude.{
  ◌≡◌, ◌≢◌, refl, sym, ap, subst, ◌∙◌, ℕ, ◌<◌, String, true, false, some, List, [], ◌∷◌, ◌==◌,
  string_eq, nat_eq, nat_beq_iff, option_eq, if◌then◌else◌, arith, eq_iff, All, Bool-cases,
  Option-cases, inl, inr,
}
use mathlib.Core.Option
use secure_swipe.Prelude.Dict
use secure_swipe.Prelude.Dict.{Dict, get-put, get-remove}
use secure_swipe.Prelude.Result.{Result, ok, err}
use secure_swipe.Prelude.Text.{is_sha256}
use secure_swipe.Registry.{
  Registry, Entry, Reservation, RegistryError, conflict, is_request_id, idempotency_key_sha256,
  reserve_key, reserve, change, Operation, reserve_op, complete_op, fail_op, step, run, new_entry,
  complete, fail,
}

module _ {V X : Type 0} where
  pub get-change :
      (n m : ℕ) (f : Entry V X → Entry V X) (h : Dict ℕ (Entry V X))
      → Dict.get (change n f h) m ≡ (if n == m then Option.map f (Dict.get h m) else Dict.get h m)
  unfolding change Dict.get
  get-change n m f [] = ground arith
  get-change n m f ((i, e) ∷ h) =
      ground (arith, get-change n m f h, nat_beq_iff i n, nat_beq_iff i m, nat_beq_iff n m)

  -- The key refers to the entry `n`, which is for the input with this digest.
  pub record IsHeld (key digest : String) (n : ℕ) (r : Registry V X) : Type 0 where
    pub held : Dict.get r.entries key ≡ some n
    pub known : (e : Entry V X) × (Dict.get r.heap n ≡ some e) × (e.input_digest_sha256 ≡ digest)
    pub old : n < r.next

  -- The operation reports no failure for the key.
  abbrev pub Spares : String → Operation V X → Type 0
  Spares key (reserve_op request_id digest) = Unit
  Spares key (complete_op s v) = Unit
  Spares key (fail_op s x) = (s.key_sha256 == key) ≡ false

  change-IsHeld :
      (key digest : String) (n m : ℕ) (f : Entry V X → Entry V X) (h : Dict ℕ (Entry V X))
      → ((e : Entry V X) → (f e).input_digest_sha256 ≡ e.input_digest_sha256)
      → (e : Entry V X) × (Dict.get h n ≡ some e) × (e.input_digest_sha256 ≡ digest)
      → (e : Entry V X) × (Dict.get (change m f h) n ≡ some e) × (e.input_digest_sha256 ≡ digest)
  change-IsHeld key digest n m f h keeps (e, here, same) = elim (Bool-cases (m == n)) [
    | inl p ↦ (f e, get-change m n f h ∙ (rw (p, here) refl), keeps e ∙ same)
    | inr p ↦ (e, get-change m n f h ∙ (rw (p, here) refl), same)
  ]

  reserve_key-IsHeld :
      (k d key digest : String) (n : ℕ) (r : Registry V X)
      → IsHeld key digest n r
      → IsHeld key digest n (reserve_key k d r).0
  unfolding reserve_key
  reserve_key-IsHeld k d key digest n r h = elim (Option-cases (Dict.get r.entries k)) [
    | inl p ↦
        rw (p, reserve_key)
          (record {
            held = ground (arith, h.held, get-put r.entries k key r.next, eq_iff k key);
            known = (
              h.known.0,
              ground (
                arith,
                h.known.1,
                h.old,
                get-put r.heap r.next n (new_entry d),
                nat_beq_iff r.next n,
              ),
              h.known.2,
            );
            old = omega (arith, h.old);
          })
    | inr (m, p) ↦ elim (Option-cases (Dict.get r.heap m)) [
      | inl q ↦ rw (p, q, reserve_key) h
      | inr (e, q) ↦ elim (Bool-cases (e.input_digest_sha256 == d)) [
        | inl s ↦ rw (p, q, s, reserve_key) h
        | inr s ↦ rw (p, q, s, reserve_key) h
      ]
    ]
  ]

  step-IsHeld :
      (sha256 : String → String) (op : Operation V X) (key digest : String) (n : ℕ)
      (r : Registry V X)
      → Spares key op
      → IsHeld key digest n r
      → IsHeld key digest n (step sha256 op r)
  unfolding step reserve complete fail
  step-IsHeld sha256 (reserve_op id d) key digest n r u h = elim (Bool-cases (is_request_id id)) [
    | inr p ↦ rw (p, step, reserve, idempotency_key_sha256) h
    | inl p ↦ elim (Bool-cases (is_sha256 d)) [
      | inr q ↦ rw (p, q, step, reserve, idempotency_key_sha256) h
      | inl q ↦
          rw (p, q, step, reserve, idempotency_key_sha256)
            (reserve_key-IsHeld (sha256 id) d key digest n r h)
    ]
  ]
  step-IsHeld sha256 (complete_op s v) key digest n r u h = elim (Bool-cases s.owner) [
    | inr p ↦ rw p h
    | inl p ↦ rw p (record {
      held = h.held;
      known =
          change-IsHeld key digest n s.entry (λ e. record e { result = some v; ready = true })
            r.heap (λ e. refl) h.known;
      old = h.old;
    })
  ]
  step-IsHeld sha256 (fail_op s x) key digest n r u h = elim (Bool-cases s.owner) [
    | inr p ↦ rw p h
    | inl p ↦ rw p (record {
      held = ground (arith, h.held, u, get-remove r.entries s.key_sha256 key);
      known =
          change-IsHeld key digest n s.entry (λ e. record e { error = some x; ready = true }) r.heap
            (λ e. refl) h.known;
      old = h.old;
    })
  ]

  run-IsHeld :
      (sha256 : String → String) (ops : List (Operation V X)) (key digest : String) (n : ℕ)
      (r : Registry V X)
      → All (Spares key) ops
      → IsHeld key digest n r
      → IsHeld key digest n (run sha256 ops r)
  unfolding run
  run-IsHeld sha256 [] key digest n r u h = h
  run-IsHeld sha256 (op ∷ ops) key digest n r u h =
      run-IsHeld sha256 ops key digest n (step sha256 op r) u.1
        (step-IsHeld sha256 op key digest n r u.0 h)

  -- What an owner's reservation leaves.
  pub reserve_key-owner :
      (key digest : String) (r : Registry V X) (s : Reservation)
      → (reserve_key key digest r).1 ≡ ok s
      → s.owner ≡ true
      → (s.key_sha256 ≡ key) × IsHeld key digest s.entry (reserve_key key digest r).0
  unfolding reserve_key
  reserve_key-owner key digest r s h own = elim (Option-cases (Dict.get r.entries key)) [
    | inl p ↦
        let made : s ≡ (record { key_sha256 = key; owner = true; entry = r.next }) = ground arith in
        rw (made, p, reserve_key)
          (
            refl,
            record {
              held = ground (arith, get-put r.entries key key r.next, eq_iff key key);
              known = (
                new_entry digest,
                ground (
                  arith,
                  get-put r.heap r.next r.next (new_entry digest),
                  nat_beq_iff r.next r.next,
                ),
                refl,
              );
              old = omega arith;
            },
          )
    | inr (m, p) ↦ absurd (elim (Option-cases (Dict.get r.heap m)) [
      | inl q ↦ ground arith
      | inr (e, q) ↦ ground arith
    ])
  ]

  reserve_key-held :
      (key digest digest' : String) (n : ℕ) (r : Registry V X)
      → IsHeld key digest n r
      → (digest' ≡ digest
          → reserve_key key digest' r
            ≡ (r, ok (record { key_sha256 = key; owner = false; entry = n })))
        × (digest' ≢ digest → reserve_key key digest' r ≡ (r, err conflict))
  unfolding reserve_key
  reserve_key-held key digest digest' n r h =
      let (e, here, same) = h.known in
      (
        λ p.
            let q : (e.input_digest_sha256 == digest') ≡ true =
              (eq_iff e.input_digest_sha256 digest').1 (same ∙ sym p) in
            rw (h.held, here, q, reserve_key) refl,
        λ p. elim (Bool-cases (e.input_digest_sha256 == digest')) [
          | inl q ↦ absurd (p (sym ((eq_iff e.input_digest_sha256 digest').0 q) ∙ same))
          | inr q ↦ rw (h.held, here, q, reserve_key) refl
        ],
      )

  pub reserve-eq-reserve_key :
      (sha256 : String → String) (id digest : String) (r : Registry V X) (s : Reservation)
      → (reserve sha256 id digest r).1 ≡ ok s
      → (is_request_id id ≡ true) × (reserve sha256 id digest r ≡ reserve_key (sha256 id) digest r)
  unfolding reserve idempotency_key_sha256
  reserve-eq-reserve_key sha256 id digest r s h = elim (Bool-cases (is_request_id id)) [
    | inr p ↦ absurd (ground arith)
    | inl p ↦ elim (Bool-cases (is_sha256 digest)) [
      | inr q ↦ absurd (ground arith)
      | inl q ↦ (p, rw (p, q, reserve, idempotency_key_sha256) refl)
    ]
  ]

  reserve-valid :
      (sha256 : String → String) (id digest : String) (r : Registry V X)
      → is_request_id id ≡ true
      → is_sha256 digest ≡ true
      → reserve sha256 id digest r ≡ reserve_key (sha256 id) digest r
  unfolding reserve idempotency_key_sha256
  reserve-valid sha256 id digest r p q = rw (p, q, reserve, idempotency_key_sha256) refl

  reservation_path :
      (r : Registry V X) (s : Reservation) {k : String}
      → s.key_sha256 ≡ k
      → ◌≡◌ {A = Registry V X × Result (RegistryError X) Reservation}
          (r, ok (record { key_sha256 = k; owner = false; entry = s.entry }))
          (r, ok (record s { owner = false }))
  reservation_path r s p = cc

  -- Once a reservation of a request is given an owner, and while no failure is reported for its
  -- key, every further reservation of the request with a valid digest changes nothing: with the
  -- same digest it gets the owner's entry without owning it, and with another it is a conflict.
  pub reserve_again :
      (sha256 : String → String) (id digest digest' : String) (r : Registry V X) (s : Reservation)
      (ops : List (Operation V X))
      → (reserve sha256 id digest r).1 ≡ ok s
      → s.owner ≡ true
      → All (Spares s.key_sha256) ops
      → is_sha256 digest' ≡ true
      → (digest' ≡ digest
          → reserve sha256 id digest' (run sha256 ops (reserve sha256 id digest r).0)
            ≡ (run sha256 ops (reserve sha256 id digest r).0, ok (record s { owner = false })))
        × (digest' ≢ digest
            → reserve sha256 id digest' (run sha256 ops (reserve sha256 id digest r).0)
              ≡ (run sha256 ops (reserve sha256 id digest r).0, err conflict))
  reserve_again sha256 id digest digest' r s ops h own u valid =
      let (named, shape) = reserve-eq-reserve_key sha256 id digest r s h in
      let got = reserve_key-owner (sha256 id) digest r s (ap (λ t. t.1) (sym shape) ∙ h) own in
      let later =
        run-IsHeld sha256 ops (sha256 id) digest s.entry (reserve sha256 id digest r).0
          (subst (λ k. All (Spares k) ops) got.0 u)
          (subst (λ t. IsHeld (sha256 id) digest s.entry t.0) (sym shape) got.1) in
      let answer = reserve_key-held (sha256 id) digest digest' s.entry _ later in
      let same =
        reserve-valid sha256 id digest' (run sha256 ops (reserve sha256 id digest r).0) named
          valid in
      (λ p. same ∙ answer.0 p ∙ reservation_path _ s got.0, λ p. same ∙ answer.1 p)
