-- ===== src/Partition/Tests.antt =====
-- A partition that the verification accepts, and its theorem there.
use secure_swipe.Prelude.{◌≡◌, ℕ, String, List, [], ◌∷◌, contains, map, All, refl}
use secure_swipe.Prelude.Int.{pos}
use secure_swipe.Prelude.Dict
use secure_swipe.Prelude.Dict.{Dict}
use secure_swipe.Partition.{
  RoleBoundary, Counts, role_names, role_for_timestamp, increasing, last_of, see, tally, total_rows,
  sum_values, counts_agree, verify_partition,
}
use secure_swipe.Partition.Rows.{rows_of, verify_partition-rows_of}

program : Unit {0}
unfolding Dict.get Dict.put contains role_for_timestamp increasing last_of see tally total_rows
    sum_values counts_agree verify_partition
program = tt

abbrev bound : String → ℕ → ℕ → RoleBoundary
bound role upper n = record { role = role; upper_timestamp = pos upper; row_count = n }

abbrev bounds : List RoleBoundary
bounds =
    bound "training" 20 7
    ∷ bound "validation_threshold" 30 2
    ∷ bound "calibration_fit" 40 1
    ∷ bound "calibration_eval" 50 1
    ∷ bound "final_test" 60 2
    ∷ []

abbrev counts : Counts
counts = (pos 10, 4) ∷ (pos 20, 3) ∷ (pos 30, 2) ∷ (pos 40, 1) ∷ (pos 50, 1) ∷ (pos 60, 2) ∷ []

abbrev observed : Dict String ℕ
observed =
    ("training", 7)
    ∷ ("validation_threshold", 2)
    ∷ ("calibration_fit", 1)
    ∷ ("calibration_eval", 1)
    ∷ ("final_test", 2)
    ∷ []

verify_partition-rows_of_example :
    (map (λ b. b.role) bounds ≡ role_names)
    × All (λ b. b.row_count ≡ rows_of bounds b.role counts) bounds
    × (13 ≡ total_rows counts)
unfolding program
verify_partition-rows_of_example = verify_partition-rows_of counts bounds 13 observed refl
