-- ===== src/Partition.antt =====
-- The verification of a chronological partition (src/lane_a/partition.py). Fractions of rows are
-- floats that the verification does not read, and are left out. The choice of the boundaries is
-- by such fractions, and is not modelled.
use secure_swipe.Prelude.{
  ◌≡◌, refl, sym, ◌∙◌, ap, ℕ, ◌+◌, String, Bool, true, false, Option, none, some, List, [], ◌∷◌,
  ◌++◌, map, contains, ◌==◌, string_eq, list_eq, nat_eq, option_eq, if◌then◌else◌, nat_beq, not,
  arith, ◌&&◌,
}
use secure_swipe.Prelude.Int.{ℤ, leb_ℤ, ltb_ℤ}
use secure_swipe.Prelude.Dict
use secure_swipe.Prelude.Dict.{Dict}
use secure_swipe.Prelude.Result.{Result, ok, err, ◌>>=◌, ◌>>◌, fail_if, of_option}
mod Rows
mod Tests

pub data PartitionError : Type 0 where
  beyond_last_bound wrong_roles not_increasing not_contiguous total_mismatch count_mismatch :
      PartitionError
  not_chronological unknown_role : PartitionError

abbrev pub role_names : List String
role_names =
    "training" ∷ "validation_threshold" ∷ "calibration_fit" ∷ "calibration_eval" ∷ "final_test" ∷ []

pub record RoleBoundary : Type 0 where
  pub role : String
  pub upper_timestamp : ℤ
  pub row_count : ℕ

abbrev pub Counts : Type 0
Counts = List (ℤ × ℕ)

unfoldable pub role_for_timestamp : ℤ → List RoleBoundary → Result PartitionError String
role_for_timestamp t [] = err beyond_last_bound
role_for_timestamp t (b ∷ bs) =
    let rest = role_for_timestamp t bs in if leb_ℤ t b.upper_timestamp then ok b.role else rest

-- `uppers == sorted(set(uppers))`: each bound is below the next.
unfoldable pub increasing : List RoleBoundary → Bool
increasing [] = true
increasing (b ∷ []) = true
increasing (b ∷ c ∷ bs) = ltb_ℤ b.upper_timestamp c.upper_timestamp && increasing (c ∷ bs)

abbrev pub add_rows : Dict String ℕ → String → ℕ → Result PartitionError (Dict String ℕ)
add_rows observed role n = do
  m ← of_option (Dict.get observed role) unknown_role
  ok (Dict.put observed role (m + n))

unfoldable pub last_of : List String → Option String
last_of [] = none
last_of (x ∷ []) = some x
last_of (x ∷ y ∷ xs) = last_of (y ∷ xs)

-- The update of `seen_roles` by one timestamp's role.
unfoldable pub see : List String → String → Result PartitionError (List String)
unfolding last_of contains
see seen role =
    if last_of seen == some role
    then ok seen
    else if contains seen role
    then err not_contiguous
    else ok (seen ++ role ∷ [])

-- The loop over the counts: the rows observed for each role, and the roles in order.
unfoldable pub tally :
    List RoleBoundary
    → Counts
    → Dict String ℕ
    → List String
    → Result PartitionError (Dict String ℕ × List String)
unfolding role_for_timestamp see Dict.get Dict.put
tally bs [] observed seen = ok (observed, seen)
tally bs ((t, n) ∷ counts) observed seen = do
  role ← role_for_timestamp t bs
  observed ← add_rows observed role n
  seen ← see seen role
  tally bs counts observed seen

abbrev pub no_rows : Dict String ℕ
no_rows = map (λ name. (name, 0)) role_names

unfoldable pub total_rows : Counts → ℕ
total_rows [] = 0
total_rows ((t, n) ∷ counts) = n + total_rows counts

unfoldable pub sum_values : Dict String ℕ → ℕ
sum_values [] = 0
sum_values ((k, n) ∷ d) = n + sum_values d

unfoldable pub counts_agree : Dict String ℕ → List RoleBoundary → Bool
unfolding Dict.get
counts_agree observed [] = true
counts_agree observed (b ∷ bs) =
    Dict.get observed b.role == some b.row_count && counts_agree observed bs

-- The total rows and the rows of each role, of the dictionary that is returned.
unfoldable pub verify_partition :
    Counts → List RoleBoundary → Result PartitionError (ℕ × Dict String ℕ)
unfolding increasing tally total_rows sum_values counts_agree
verify_partition counts bs = do
  fail_if (not (map (λ b. b.role) bs == role_names)) wrong_roles
  fail_if (not (increasing bs)) not_increasing
  (observed, seen) ← tally bs counts no_rows []
  fail_if (not (nat_beq (sum_values observed) (total_rows counts))) total_mismatch
  fail_if (not (counts_agree observed bs)) count_mismatch
  fail_if (not (seen == role_names)) not_chronological
  ok (total_rows counts, observed)
