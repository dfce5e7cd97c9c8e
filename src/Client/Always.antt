-- ===== src/Client/Always.antt =====
-- What holds of the result of an action in every world.
use kube_smart_scheduler.Prelude.{Bool, true, false, if◌then◌else◌}
use kube_smart_scheduler.Client.{Act, ◌>>=◌}

abbrev pub Always {ℓ κ} : {W : Type 0} {A : Type ℓ} → (A → Type κ) → Act W A → Type κ
Always {W} P m = (w : W) → P (m w).0

pub Always-bind {ℓ κ ι} :
    {W : Type 0} {A : Type ℓ} {B : Type κ} (P : B → Type ι) (m : Act W A) (f : A → Act W B)
    → ((a : A) → Always P (f a))
    → Always P (m >>= f)
Always-bind P m f h w = h (m w).0 (m w).1

pub Always-if {ℓ κ} :
    {W : Type 0} {A : Type ℓ} (P : A → Type κ) (b : Bool) (m k : Act W A)
    → Always P m
    → Always P k
    → Always P (if b then m else k)
Always-if P true m k h g = h
Always-if P false m k h g = g
