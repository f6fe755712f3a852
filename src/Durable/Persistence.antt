-- ===== src/Durable/Persistence.antt =====
-- Rows that last: what operations leave alone, by induction on their moves.
use secure_swipe.Prelude.{
  ◌≡◌, refl, ◌∙◌, String, Bool, true, false, ◌&&◌, Option, some, List, [], ◌∷◌, ◌==◌, string_eq,
  arith, eq_iff, All,
}
use secure_swipe.Prelude.Dict
use secure_swipe.Prelude.Dict.{get-put}
use secure_swipe.Durable.{State, pending, completed, unresolved, Row, Table}
use secure_swipe.Durable.Steps.{step-Move}
use secure_swipe.Durable.Machine.{
  Operation, complete, fail, recover, step, run, Move, stay, create, retry, finish, release, crash,
}

-- An owner's `fail` of the key, and an owner's `complete` of it.
abbrev pub releases : String → Operation → Bool
releases k (fail r _ _) = r.owner && r.key_sha256 == k
releases k _ = false

abbrev pub completes : String → Operation → Bool
completes k (complete r _ _ _ _) = r.owner && r.key_sha256 == k
completes k _ = false

abbrev pub is_final : State → Bool
is_final completed = true
is_final unresolved = true
is_final _ = false

abbrev pub is_held : State → Bool
is_held pending = true
is_held unresolved = true
is_held _ = false

module _ (k : String) where
  pub Move-final :
      (op : Operation) {o o' : Option Row} (row : Row)
      → Move op k o o'
      → o ≡ some row
      → is_final row.state ≡ true
      → releases k op ≡ false
      → o' ≡ some row
  Move-final op row (stay e) h f n = e ∙ h
  Move-final op row (create i d now m v a b) h f n = cc
  Move-final op row (retry i now r m s a b) h f n = ground arith
  Move-final op row (finish r w d v x now m ow ke s al va a b) h f n = ground arith
  Move-final op row (release r w du now m ow ke a b) h f n = ground (arith, eq_iff r.key_sha256 k)
  Move-final op row (crash w now m s a b) h f n = ground arith

  -- The part of a row that no operation changes, and that the key stays out of reach.
  abbrev pub Held : String → Option Row → Type 0
  Held digest o =
      (row : Row) × (o ≡ some row) × (is_held row.state ≡ true) × (row.input_digest_sha256 ≡ digest)

  pub Move-Held :
      (op : Operation) {o o' : Option Row} (digest : String)
      → Move op k o o'
      → Held digest o
      → releases k op ≡ false
      → completes k op ≡ false
      → Held digest o'
  Move-Held op digest (stay e) (row, h, p, q) n c = (row, e ∙ h, p, q)
  Move-Held op digest (create i d now m v a b) (row, h, p, q) n c = absurd (cc)
  Move-Held op digest (retry i now r m s a b) (row, h, p, q) n c = absurd (ground arith)
  Move-Held op digest (finish r w d v x now m ow ke s al va a b) (row, h, p, q) n c =
      absurd (ground (arith, eq_iff r.key_sha256 k))
  Move-Held op digest (release r w du now m ow ke a b) (row, h, p, q) n c =
      absurd (ground (arith, eq_iff r.key_sha256 k))
  Move-Held op digest (crash w now m s a b) (row, h, p, q) n c = (_, b, refl, ground arith)

abbrev pub NoFail : String → List Operation → Type 0
NoFail k = All (λ op. releases k op ≡ false)

abbrev pub Untouched : String → List Operation → Type 0
Untouched k = All (λ op. (releases k op ≡ false) × (completes k op ≡ false))

abbrev pub restarts : Operation → Bool
restarts (recover _) = true
restarts _ = false

abbrev pub Undisturbed : String → List Operation → Type 0
Undisturbed k =
    All (λ op. (releases k op ≡ false) × (completes k op ≡ false) × (restarts op ≡ false))

Move-pending :
    (k : String) (op : Operation) {o o' : Option Row} (row : Row)
    → Move op k o o'
    → o ≡ some row
    → row.state ≡ pending
    → releases k op ≡ false
    → completes k op ≡ false
    → restarts op ≡ false
    → o' ≡ some row
Move-pending k op row (stay e) h p f c n = e ∙ h
Move-pending k op row (create i d now m v a b) h p f c n = cc
Move-pending k op row (retry i now r m s a b) h p f c n = ground arith
Move-pending k op row (finish r w d v x now m ow ke s al va a b) h p f c n =
    ground (arith, eq_iff r.key_sha256 k)
Move-pending k op row (release r w du now m ow ke a b) h p f c n =
    ground (arith, eq_iff r.key_sha256 k)
Move-pending k op row (crash w now m s a b) h p f c n = ground arith

module _ (sha256 : String → String) (k : String) where
  pub run-pending :
      (ops : List Operation) (t : Table) (row : Row)
      → Dict.get t k ≡ some row
      → row.state ≡ pending
      → Undisturbed k ops
      → Dict.get (run sha256 ops t) k ≡ some row
  unfolding run
  run-pending [] t row h p n = h
  run-pending (op ∷ ops) t row h p n =
      run-pending ops (step sha256 op t) row
        (Move-pending k op row (step-Move sha256 t k op) h p n.0.0 n.0.1 n.0.2) p n.1

  pub run-final :
      (ops : List Operation) (t : Table) (row : Row)
      → Dict.get t k ≡ some row
      → is_final row.state ≡ true
      → NoFail k ops
      → Dict.get (run sha256 ops t) k ≡ some row
  unfolding run
  run-final [] t row h f n = h
  run-final (op ∷ ops) t row h f n =
      run-final ops (step sha256 op t) row (Move-final k op row (step-Move sha256 t k op) h f n.0) f
        n.1

  pub run-Held :
      (ops : List Operation) (t : Table) (digest : String)
      → Held k digest (Dict.get t k)
      → Untouched k ops
      → Held k digest (Dict.get (run sha256 ops t) k)
  unfolding run
  run-Held [] t digest h n = h
  run-Held (op ∷ ops) t digest h n =
      run-Held ops (step sha256 op t) digest
        (Move-Held k op digest (step-Move sha256 t k op) h n.0.0 n.0.1) n.1
