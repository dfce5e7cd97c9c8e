-- ===== src/Controller.antt =====
-- What the controllers answer to a request: ctrl.Result, and the error beside it.
use kube_smart_scheduler.Prelude.{ℕ, ◌*◌, Option, none, some}
use kube_smart_scheduler.State.{second}

pub record ReconcileResult (E : Type 0) : Type 0 where
  pub requeue_after : ℕ  -- in nanoseconds; 0 asks for no requeue
  pub error : Option E

abbrev pub minute : ℕ
minute = 60 * second

module _ {E : Type 0} where
  abbrev pub requeue : ℕ → ReconcileResult E
  requeue delay = record { requeue_after = delay; error = none }

  abbrev pub failed : E → ReconcileResult E
  failed e = record { requeue_after = 0; error = some e }
