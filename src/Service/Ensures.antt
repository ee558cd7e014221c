-- ===== src/Service/Ensures.antt =====
-- Rules for what holds of the result of a run, if it has one.
use c_framework_to_server.Base.{Bool, true, false, Option, none, some, ◌≡◌, subst, if◌then◌else◌}
use c_framework_to_server.Memory.{◌>>=◌}

abbrev pub Ensures {ℓ} : {A : Type ℓ} → (A → Type 0) → Option A → Type 0
Ensures P none = Unit
Ensures P (some a) = P a

module _ {ℓ} {A : Type ℓ} where
  pub Ensures-bind {κ} :
      {B : Type κ} (Q : A → Type 0) (P : B → Type 0) (m : Option A) (f : A → Option B)
      → Ensures Q m
      → ((a : A) → Q a → Ensures P (f a))
      → Ensures P (m >>= f)
  Ensures-bind Q P none f h k = tt
  Ensures-bind Q P (some a) f h k = k a h

  -- Where nothing of the first result is needed.
  pub Ensures-any : (m : Option A) → Ensures (λ a. Unit) m
  Ensures-any none = tt
  Ensures-any (some a) = tt

  pub Ensures-if :
      (P : A → Type 0) (c : Bool) (m n : Option A)
      → Ensures P m
      → Ensures P n
      → Ensures P (if c then m else n)
  Ensures-if P true m n h k = h
  Ensures-if P false m n h k = k

  pub Ensures-some : (P : A → Type 0) (m : Option A) (a : A) → Ensures P m → m ≡ some a → P a
  Ensures-some P m a h e = subst (Ensures P) e h
