-- ===== src/Durable/Tests.antt =====
-- Runs of the store, and its theorems at concrete inputs. The hash of a request id is the id.
use secure_swipe.Prelude.{
  ◌≡◌, refl, ◌+◌, String, true, false, some, List, [], ◌∷◌, contains, string_eq,
}
use secure_swipe.Prelude.Dict
use secure_swipe.Prelude.Text.{is_sha256, is_ascii}
use secure_swipe.Prelude.Result.{ok, err}
use secure_swipe.Durable
use secure_swipe.Durable.{
  pending, completed, Reservation, Row, Table, owned, DurableError, unresolved_request,
  idempotency_conflict, in_flight, update, update_all, pending_count, State,
}
use secure_swipe.Durable.Machine.{Operation, reserve, complete, recover, step, run, Move}
use secure_swipe.Durable.Steps.{step-Move}
use secure_swipe.Durable.Outcomes.{single_owner, crash_closes, complete-reserve}
use secure_swipe.Durable.Rows.{
  fail-reserve, IsSound, run-IsSound, unresolved_count, recover-pending_count,
}

program : Unit {0}
unfolding Dict.get Dict.put contains is_sha256 is_ascii update update_all pending_count
    Durable.reserve Durable.complete Durable.fail Durable.recover step run
program = tt

abbrev same : String → String
same id = id

abbrev zeros : String
zeros = "0000000000000000000000000000000000000000000000000000000000000000"

abbrev ones : String
ones = "1111111111111111111111111111111111111111111111111111111111111111"

abbrev reserved : Table
reserved = (Durable.reserve same "r1" zeros "t0" []).0

r1_owned : (Durable.reserve same "r1" zeros "t0" []).1 ≡ ok (owned "r1")
unfolding program
r1_owned = refl

zeros_valid : is_sha256 zeros ≡ true
unfolding program
zeros_valid = refl

abbrev done : Operation
done = complete (owned "r1") "human_review" "v1" ones "t1"

abbrev others : List Operation
others = reserve "r2" ones "t2" ∷ recover "t3" ∷ reserve "r1" ones "t4" ∷ []

-- A completed request is replayed, a conflicting one refused.
r1_conflict :
    (Durable.reserve same "r1" ones "t5" (run same (done ∷ others) reserved)).1
    ≡ err idempotency_conflict
unfolding program
r1_conflict = refl

r1_in_flight : (Durable.reserve same "r1" zeros "t5" reserved).1 ≡ err in_flight
unfolding program
r1_in_flight = refl

single_owner_example :
    (e : DurableError) × (Durable.reserve same "r1" zeros "t5" (run same others reserved)
      ≡ (run same others reserved, err e))
single_owner_example =
    single_owner same "r1" zeros "t0" [] r1_owned others zeros "t5"
      ((refl, refl), ((refl, refl), ((refl, refl), tt))) zeros_valid

crash_closes_example :
    Durable.reserve same "r1" zeros "t9"
      (run same others (Durable.recover "t8" (run same others reserved)).0)
    ≡ (run same others (Durable.recover "t8" (run same others reserved)).0, err unresolved_request)
crash_closes_example =
    crash_closes same "r1" zeros "t0" [] r1_owned others others "t8" "t9"
      ((refl, refl), ((refl, refl), ((refl, refl), tt))) (refl, (refl, (refl, tt)))

-- Another request in between, and the same one again.
abbrev meanwhile : List Operation
meanwhile = reserve "r2" ones "t0" ∷ reserve "r1" zeros "t0" ∷ []

abbrev waiting : Table
waiting = run same meanwhile reserved

abbrev finished : Table
finished = (Durable.complete (owned "r1") "human_review" "v1" ones "t1" waiting).0

r1_finished : (Durable.complete (owned "r1") "human_review" "v1" ones "t1" waiting).1 ≡ ok tt
unfolding program
r1_finished = refl

abbrev replay_of_r1 : Reservation
replay_of_r1 = record {
  key_sha256 = "r1";
  owner = false;
  state = completed;
  decision = some "human_review";
  model_version = some "v1";
  audit_event_hash = some ones;
}

complete-reserve_example :
    Durable.reserve same "r1" zeros "t9" (run same others finished)
    ≡ (run same others finished, ok replay_of_r1)
complete-reserve_example =
    complete-reserve same "r1" zeros "t0" [] r1_owned meanwhile "human_review" "v1" ones "t1" others
      zeros "t9" ((refl, refl, refl), ((refl, refl, refl), tt)) r1_finished
      (refl, (refl, (refl, tt))) zeros_valid

abbrev completed_row : Row
completed_row = record {
  input_digest_sha256 = zeros;
  state = completed;
  decision = some "human_review";
  model_version = some "v1";
  audit_event_hash = some ones;
  created_utc = "t0";
  resolved_utc = some "t1";
}

r1_ascii : is_ascii "r1" ≡ true
unfolding program
r1_ascii = refl

abbrev one_row : Table
one_row = ("r1", completed_row) ∷ []

r1_found : Dict.get one_row "r1" ≡ some completed_row
unfolding program
r1_found = refl

-- The completed request of the row is given to a new owner.
fail-reserve_example :
    (Durable.reserve same "r1" zeros "t9" (Durable.fail (owned "r1") false "t8" one_row).0).1
    ≡ ok (owned "r1")
fail-reserve_example =
    fail-reserve same "r1" "t8" "t9" one_row completed_row (owned "r1") zeros_valid r1_ascii
      r1_found refl refl

step-Move_example :
    Move done "r1" (Dict.get reserved "r1") (Dict.get (step same done reserved) "r1")
step-Move_example = step-Move same reserved "r1" done

empty-IsSound : IsSound []
unfolding program
empty-IsSound k row h = absurd (cc)

run-IsSound_example : IsSound (run same (reserve "r1" zeros "t0" ∷ done ∷ others) [])
run-IsSound_example = run-IsSound same (reserve "r1" zeros "t0" ∷ done ∷ others) [] empty-IsSound

recover-pending_count_example :
    (pending_count (Durable.recover "t8" reserved).0 ≡ 0)
    × (unresolved_count (Durable.recover "t8" reserved).0
        ≡ unresolved_count reserved + (Durable.recover "t8" reserved).1)
recover-pending_count_example = recover-pending_count "t8" reserved
