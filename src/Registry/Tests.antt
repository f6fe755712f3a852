-- ===== src/Registry/Tests.antt =====
-- Runs of the registry, and its theorems at concrete inputs. The digest of an id is the id.
use secure_swipe.Prelude.{◌≡◌, ◌≢◌, refl, String, true, false, some, List, [], ◌∷◌, ℕ}
use secure_swipe.Prelude.Dict
use secure_swipe.Prelude.Result.{ok, err}
use secure_swipe.Prelude.Text.{codes, every, is_sha256}
use secure_swipe.Registry.{
  Registry, Reservation, Operation, reserve_op, fail_op, is_request_id, idempotency_key_sha256,
  reserve_key, reserve, change, complete, fail, replay, step, run, conflict,
}
use secure_swipe.Registry.Owner.{reserve_again}
use secure_swipe.Registry.Published.{complete-replay}

program : Unit {0}
unfolding Dict.get Dict.put Dict.remove codes every is_sha256 is_request_id idempotency_key_sha256
    reserve_key reserve change complete fail replay step run
program = tt

abbrev same : String → String
same s = s

abbrev zeros : String
zeros = "0000000000000000000000000000000000000000000000000000000000000000"

abbrev ones : String
ones = "1111111111111111111111111111111111111111111111111111111111111111"

abbrev empty_registry : Registry String ℕ
empty_registry = record { entries = []; heap = []; next = 0 }

abbrev owner : Reservation
owner = record { key_sha256 = "r1"; owner = true; entry = 0 }

abbrev waiter : Reservation
waiter = record { key_sha256 = "r1"; owner = false; entry = 0 }

abbrev others : List (Operation String ℕ)
others =
    reserve_op "r1" zeros
    ∷ reserve_op "r2" ones
    ∷ fail_op (record { key_sha256 = "r2"; owner = true; entry = 1 }) 7
    ∷ []

reserve_again_example :
    (zeros ≡ zeros
      → reserve same "r1" zeros (run same others (reserve same "r1" zeros empty_registry).0)
        ≡ (run same others (reserve same "r1" zeros empty_registry).0, ok waiter))
    × (zeros ≢ zeros
        → reserve same "r1" zeros (run same others (reserve same "r1" zeros empty_registry).0)
          ≡ (run same others (reserve same "r1" zeros empty_registry).0, err conflict))
unfolding program
reserve_again_example =
    reserve_again same "r1" zeros zeros empty_registry owner others refl refl (tt, (tt, (refl, tt)))
      refl

complete-replay_example :
    replay waiter (
      run same others
        (complete owner "done" (run same others (reserve same "r1" zeros empty_registry).0)).0)
    ≡ ok (some "done")
unfolding program
complete-replay_example =
    complete-replay same "r1" zeros empty_registry owner waiter "done" others others refl refl
      (tt, (tt, (refl, tt))) (tt, (tt, (refl, tt))) refl refl
