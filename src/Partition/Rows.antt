-- ===== src/Partition/Rows.antt =====
-- An accepted partition's row counts are the rows of the timestamps that each role owns.
use secure_swipe.Prelude.{
  ◌≡◌, refl, sym, ◌∙◌, ap, subst, ℕ, ◌+◌, String, Bool, true, false, some, List, [], ◌∷◌, map, ◌==◌,
  string_eq, nat_eq, option_eq, if◌then◌else◌, not, arith, eq_iff, All, nat_beq, inl, inr, list_eq,
  list_beq_iff, option_beq_iff, Option-cases,
}
use secure_swipe.Prelude.Dict
use secure_swipe.Prelude.Dict.{Dict, get-put}
use secure_swipe.Prelude.Result.{ok, err, >>=-eq-ok, fail_if, fail_if-eq-ok, ok-injective}
use secure_swipe.Partition.{
  RoleBoundary, Counts, role_for_timestamp, add_rows, see, tally, counts_agree, verify_partition,
  no_rows, increasing, role_names, wrong_roles, not_increasing, total_mismatch, count_mismatch,
  not_chronological, sum_values, total_rows,
}

-- The rows of the timestamps that belong to a role.
pub rows_of : List RoleBoundary → String → Counts → ℕ
rows_of bs role [] = 0
rows_of bs role ((t, n) ∷ counts) =
    elim (role_for_timestamp t bs) [ ok r ↦ if r == role then n else 0 | err _ ↦ 0 ]
    + rows_of bs role counts

add_rows-eq-ok :
    (observed d : Dict String ℕ) (r role : String) (n m : ℕ)
    → add_rows observed r n ≡ ok d
    → Dict.get observed role ≡ some m
    → Dict.get d role ≡ some (m + (if r == role then n else 0))
add_rows-eq-ok observed d r role n m h p = elim (Option-cases (Dict.get observed r)) [
  | inl q ↦ absurd (ground arith)
  | inr (k, q) ↦
      let made : d ≡ Dict.put observed r (k + n) = ground arith in
      rw made (ground (arith, get-put observed r role (k + n), eq_iff r role))
]

tally-rows_of :
    (bs : List RoleBoundary) (counts : Counts) (observed d : Dict String ℕ)
    (seen roles : List String) (role : String) (m : ℕ)
    → tally bs counts observed seen ≡ ok (d, roles)
    → Dict.get observed role ≡ some m
    → Dict.get d role ≡ some (m + rows_of bs role counts)
unfolding tally rows_of
tally-rows_of bs [] observed d seen roles role m h p =
    let same : observed ≡ d = ap (λ x. x.0) (ok-injective h) in ground arith
tally-rows_of bs ((t, n) ∷ counts) observed d seen roles role m h p =
    let (r, e, h1) = >>=-eq-ok (role_for_timestamp t bs) _ h in
    let (o, e2, h2) = >>=-eq-ok (add_rows observed r n) _ h1 in
    let (s, e3, h3) = >>=-eq-ok (see seen r) _ h2 in
    let rest =
      tally-rows_of bs counts o d s roles role (m + (if r == role then n else 0)) h3
        (add_rows-eq-ok observed o r role n m e2 p) in
    rest ∙ ap some (rw e (omega arith))

All-of_map {ℓ} :
    (P : String → Type ℓ) (bs : List RoleBoundary)
    → All P (map (λ b. b.role) bs)
    → All (λ b. P b.role) bs
All-of_map P [] h = tt
All-of_map P (b ∷ bs) h = (h.0, All-of_map P bs h.1)

not-false : (b : Bool) → not b ≡ false → b ≡ true
not-false true h = refl
not-false false h = cc

starts_empty : All (λ name. Dict.get no_rows name ≡ some 0) role_names
unfolding Dict.get
starts_empty = (refl, (refl, (refl, (refl, (refl, tt)))))

agreed :
    (d : Dict String ℕ) (bs all : List RoleBoundary) (counts : Counts)
    → counts_agree d bs ≡ true
    → ((role : String)
        → Dict.get no_rows role ≡ some 0
        → Dict.get d role ≡ some (0 + rows_of all role counts))
    → All (λ b. Dict.get no_rows b.role ≡ some 0) bs
    → All (λ b. b.row_count ≡ rows_of all b.role counts) bs
unfolding counts_agree
agreed d [] all counts h p q = tt
agreed d (b ∷ bs) all counts h p q =
    let found = p b.role q.0 in
    let same : Dict.get d b.role ≡ some b.row_count = (option_beq_iff _ _).0 (ground arith) in
    (ground arith, agreed d bs all counts (ground arith) p q.1)

-- If the verification accepts a partition, the boundaries carry the declared roles in order, each
-- boundary's row count is the number of rows of the timestamps that its role owns, and the total
-- returned is the number of rows.
pub verify_partition-rows_of :
    (counts : Counts) (bs : List RoleBoundary) (total : ℕ) (observed : Dict String ℕ)
    → verify_partition counts bs ≡ ok (total, observed)
    → (map (λ b. b.role) bs ≡ role_names)
      × All (λ b. b.row_count ≡ rows_of bs b.role counts) bs
      × (total ≡ total_rows counts)
unfolding verify_partition
verify_partition-rows_of counts bs total observed h =
    let (_, e1, h1) =
      >>=-eq-ok (fail_if (not (map (λ b. b.role) bs == role_names)) wrong_roles) _ h in
    let (_, e2, h2) = >>=-eq-ok (fail_if (not (increasing bs)) not_increasing) _ h1 in
    let ((d, seen), e3, h3) = >>=-eq-ok (tally bs counts no_rows []) _ h2 in
    let (_, e4, h4) =
      >>=-eq-ok (fail_if (not (nat_beq (sum_values d) (total_rows counts))) total_mismatch) _ h3 in
    let (_, e5, h5) = >>=-eq-ok (fail_if (not (counts_agree d bs)) count_mismatch) _ h4 in
    let (_, e6, h6) = >>=-eq-ok (fail_if (not (seen == role_names)) not_chronological) _ h5 in
    let names : map (λ b. b.role) bs ≡ role_names =
      (list_beq_iff (map (λ b. b.role) bs) role_names).0
        (not-false _ (fail_if-eq-ok _ wrong_roles e1)) in
    let agree : counts_agree d bs ≡ true = not-false _ (fail_if-eq-ok _ count_mismatch e5) in
    (
      names,
      agreed d bs bs counts agree (λ role p. tally-rows_of bs counts no_rows d [] seen role 0 e3 p)
          (All-of_map (λ name. Dict.get no_rows name ≡ some 0) bs
            (subst (All (λ name. Dict.get no_rows name ≡ some 0)) (sym names) starts_empty)),
      ap (λ x. x.0) (sym (ok-injective h6)),
    )
