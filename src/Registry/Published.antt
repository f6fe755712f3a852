-- ===== src/Registry/Published.antt =====
-- What an owner publishes is what the waiting requests get.
use secure_swipe.Prelude.{
  ◌≡◌, refl, sym, ap, subst, ◌∙◌, ℕ, ◌<◌, String, true, false, none, some, List, [], ◌∷◌, ◌==◌,
  string_eq, nat_eq, nat_beq_iff, option_eq, arith, All, Bool-cases, Option-cases, inl, inr,
}
use secure_swipe.Prelude.Dict
use secure_swipe.Prelude.Dict.{Dict, get-put}
use secure_swipe.Prelude.Result.{ok}
use secure_swipe.Prelude.Text.{is_sha256}
use secure_swipe.Registry.{
  Registry, Entry, Reservation, is_request_id, idempotency_key_sha256, reserve_key, reserve, change,
  Operation, reserve_op, complete_op, fail_op, step, run, new_entry, complete, fail, replay,
}
use secure_swipe.Registry.Owner.{get-change, reserve-eq-reserve_key}

module _ {V X : Type 0} where
  -- The entry `n` is exactly this.
  pub record IsEntry (n : ℕ) (e : Entry V X) (r : Registry V X) : Type 0 where
    pub here : Dict.get r.heap n ≡ some e
    pub old : n < r.next

  -- The operation publishes nothing to the entry.
  abbrev pub Leaves : ℕ → Operation V X → Type 0
  Leaves n (reserve_op request_id digest) = Unit
  Leaves n (complete_op s v) = (s.entry == n) ≡ false
  Leaves n (fail_op s x) = (s.entry == n) ≡ false

  reserve_key-IsEntry :
      (k d : String) (n : ℕ) (e : Entry V X) (r : Registry V X)
      → IsEntry n e r
      → IsEntry n e (reserve_key k d r).0
  unfolding reserve_key
  reserve_key-IsEntry k d n e r h = elim (Option-cases (Dict.get r.entries k)) [
    | inl p ↦
        rw (p, reserve_key)
          (record {
            here =
                ground (
                  arith,
                  h.here,
                  h.old,
                  get-put r.heap r.next n (new_entry d),
                  nat_beq_iff r.next n,
                );
            old = omega (arith, h.old);
          })
    | inr (m, p) ↦ elim (Option-cases (Dict.get r.heap m)) [
      | inl q ↦ rw (p, q, reserve_key) h
      | inr (w, q) ↦ elim (Bool-cases (w.input_digest_sha256 == d)) [
        | inl s ↦ rw (p, q, s, reserve_key) h
        | inr s ↦ rw (p, q, s, reserve_key) h
      ]
    ]
  ]

  change-IsEntry :
      (m n : ℕ) (f : Entry V X → Entry V X) (e : Entry V X) (h : Dict ℕ (Entry V X))
      → (m == n) ≡ false
      → Dict.get h n ≡ some e
      → Dict.get (change m f h) n ≡ some e
  change-IsEntry m n f e h p here = get-change m n f h ∙ (rw (p, here) refl)

  step-IsEntry :
      (sha256 : String → String) (op : Operation V X) (n : ℕ) (e : Entry V X) (r : Registry V X)
      → Leaves n op
      → IsEntry n e r
      → IsEntry n e (step sha256 op r)
  unfolding step reserve complete fail
  step-IsEntry sha256 (reserve_op id d) n e r u h = elim (Bool-cases (is_request_id id)) [
    | inr p ↦ rw (p, step, reserve, idempotency_key_sha256) h
    | inl p ↦ elim (Bool-cases (is_sha256 d)) [
      | inr q ↦ rw (p, q, step, reserve, idempotency_key_sha256) h
      | inl q ↦
          rw (p, q, step, reserve, idempotency_key_sha256)
            (reserve_key-IsEntry (sha256 id) d n e r h)
    ]
  ]
  step-IsEntry sha256 (complete_op s v) n e r u h = elim (Bool-cases s.owner) [
    | inr p ↦ rw p h
    | inl p ↦ rw p (record {
      here =
          change-IsEntry s.entry n (λ e. record e { result = some v; ready = true }) e r.heap u
            h.here;
      old = h.old;
    })
  ]
  step-IsEntry sha256 (fail_op s x) n e r u h = elim (Bool-cases s.owner) [
    | inr p ↦ rw p h
    | inl p ↦ rw p (record {
      here =
          change-IsEntry s.entry n (λ e. record e { error = some x; ready = true }) e r.heap u
            h.here;
      old = h.old;
    })
  ]

  run-IsEntry :
      (sha256 : String → String) (ops : List (Operation V X)) (n : ℕ) (e : Entry V X)
      (r : Registry V X)
      → All (Leaves n) ops
      → IsEntry n e r
      → IsEntry n e (run sha256 ops r)
  unfolding run
  run-IsEntry sha256 [] n e r u h = h
  run-IsEntry sha256 (op ∷ ops) n e r u h =
      run-IsEntry sha256 ops n e (step sha256 op r) u.1 (step-IsEntry sha256 op n e r u.0 h)

  reserve_key-new :
      (key digest : String) (r : Registry V X) (s : Reservation)
      → (reserve_key key digest r).1 ≡ ok s
      → s.owner ≡ true
      → IsEntry s.entry (new_entry digest) (reserve_key key digest r).0
  unfolding reserve_key
  reserve_key-new key digest r s h own = elim (Option-cases (Dict.get r.entries key)) [
    | inl p ↦
        let made : s ≡ (record { key_sha256 = key; owner = true; entry = r.next }) = ground arith in
        rw (made, p, reserve_key)
          (record {
            here =
                ground (
                  arith,
                  get-put r.heap r.next r.next (new_entry digest),
                  nat_beq_iff r.next r.next,
                );
            old = omega arith;
          })
    | inr (m, p) ↦ absurd (elim (Option-cases (Dict.get r.heap m)) [
      | inl q ↦ ground arith
      | inr (e, q) ↦ ground arith
    ])
  ]

  complete-IsEntry :
      (s : Reservation) (v : V) (e : Entry V X) (r : Registry V X)
      → s.owner ≡ true
      → IsEntry s.entry e r
      → IsEntry s.entry (record e { result = some v; ready = true }) (complete s v r).0
  unfolding complete
  complete-IsEntry s v e r own h =
      let found =
        get-change s.entry s.entry (λ e. record e { result = some v; ready = true }) r.heap in
      rw (own, complete)
        (record { here = ground (arith, found, h.here, nat_beq_iff s.entry s.entry); old = h.old })

  replay-published :
      (w : Reservation) (v : V) (e : Entry V X) (r : Registry V X)
      → w.owner ≡ false
      → e.error ≡ none
      → IsEntry w.entry (record e { result = some v; ready = true }) r
      → replay w r ≡ ok (some v)
  unfolding replay
  replay-published w v e r other fine h = rw (other, h.here, fine) refl

  -- An owner reserves a request and later completes it with a result, and no other operation
  -- publishes to its entry before or after. Then a waiting reservation of that entry that does
  -- not own it replays exactly this result.
  pub complete-replay :
      (sha256 : String → String) (id digest : String) (r : Registry V X) (s w : Reservation) (v : V)
      (before after : List (Operation V X))
      → (reserve sha256 id digest r).1 ≡ ok s
      → s.owner ≡ true
      → All (Leaves s.entry) before
      → All (Leaves s.entry) after
      → w.owner ≡ false
      → w.entry ≡ s.entry
      → replay w
          (run sha256 after (complete s v (run sha256 before (reserve sha256 id digest r).0)).0)
        ≡ ok (some v)
  complete-replay sha256 id digest r s w v before after h own u u' other same =
      let (_, shape) = reserve-eq-reserve_key sha256 id digest r s h in
      let fresh =
        subst (λ t. IsEntry s.entry (new_entry digest) t.0) (sym shape)
          (reserve_key-new (sha256 id) digest r s (ap (λ t. t.1) (sym shape) ∙ h) own) in
      let ready =
        run-IsEntry sha256 before s.entry (new_entry digest) (reserve sha256 id digest r).0 u
          fresh in
      let done = complete-IsEntry s v (new_entry digest) _ own ready in
      let kept = run-IsEntry sha256 after s.entry _ _ u' done in
      replay-published w v (new_entry digest) _ other refl (
        subst
          (λ n.
            IsEntry n (record (new_entry digest) { result = some v; ready = true })
              (run sha256 after
                (complete s v (run sha256 before (reserve sha256 id digest r).0)).0))
          (sym same) kept)
