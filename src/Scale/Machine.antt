-- ===== src/Scale/Machine.antt =====
-- The store as a machine: its transactions as operations, and runs of them.
use secure_swipe.Prelude.{String, List, [], ◌∷◌, string_eq}
use secure_swipe.Prelude.Int.{ℤ}
use secure_swipe.Scale.Response.{Response, Environment}
use secure_swipe.Scale.Audit.{Database}
use secure_swipe.Scale.Stored.{Reservation}
use secure_swipe.Scale.Store.{reserve, complete_reservation, fail}

pub data Operation (F : Type 0) : Type 0 where
  reserve_op : ℤ → String → String → Operation F
  complete_op : ℤ → String → ℤ → Reservation F → Response F → Operation F
  fail_op : Reservation F → Operation F

module _ {F : Type 0} (env : Environment F) (ttl : ℤ) where
  unfoldable pub step : Operation F → Database F → Database F
  unfolding reserve complete_reservation fail
  step (reserve_op now id digest) db = (reserve env ttl now id digest db).0
  step (complete_op now identifier occurred_at r response) db =
      (complete_reservation env now identifier occurred_at r response db).0
  step (fail_op r) db = (fail r db).0

  unfoldable pub run : List (Operation F) → Database F → Database F
  unfolding step
  run [] db = db
  run (op ∷ ops) db = run ops (step op db)

  pub run-keeps {ℓ} :
      (P : Database F → Type ℓ)
      → ((op : Operation F) (db : Database F) → P db → P (step op db))
      → (ops : List (Operation F)) (db : Database F) → P db
      → P (run ops db)
  unfolding run
  run-keeps P h [] db p = p
  run-keeps P h (op ∷ ops) db p = run-keeps P h ops (step op db) (h op db p)
