-- ===== src/Base/Ensures.antt =====
-- Partial correctness of code that may fault: what holds of a result, if there is one.
use mathlib.Core.Path.{◌≡◌}
use minuet_lang_mirror.Base.Outcome.{Run, done, fault, Fault, ◌>>=◌}
use mathlib.Core.Bool.{Bool, true, false}
use minuet_lang_mirror.Base.Tests.{if◌then◌else◌}

pub data Ensures {ℓ} {A : Type ℓ} (P : A → Type 0) : Run A → Type ℓ where
  returned : {a : A} → P a → Ensures P (done a)
  faulted : {e : Fault} → Ensures P (fault e)

module _ {ℓ} {A : Type ℓ} where
  pub holds : {P : A → Type 0} {a : A} → Ensures P (done a) → P a
  holds (returned p) = p

  pub any : (m : Run A) → Ensures (λ a. Unit {0}) m
  any (done a) = returned tt
  any (fault e) = faulted

  pub holds_of_done : {P : A → Type 0} {m : Run A} {a : A} → Ensures P m → m ≡ done a → P a
  holds_of_done p e = holds (rw e at p)

  pub if_Ensures :
      {P : A → Type 0} (b : Bool) {m n : Run A}
      → Ensures P m
      → Ensures P n
      → Ensures P (if b then m else n)
  if_Ensures true p q = p
  if_Ensures false p q = q

  pub bind {κ} :
      {B : Type κ} {P : A → Type 0} {Q : B → Type 0} {m : Run A} {f : A → Run B}
      → Ensures P m
      → ((a : A) → P a → Ensures Q (f a))
      → Ensures Q (m >>= f)
  bind (returned p) next = next _ p
  bind faulted next = faulted

  -- The rest of the code does not depend on what `m` gives.
  pub after {κ} :
      {B : Type κ} {Q : B → Type 0} (m : Run A) {f : A → Run B}
      → ((a : A) → Ensures Q (f a))
      → Ensures Q (m >>= f)
  after (done a) next = next a
  after (fault e) next = faulted

-- The result is one that the code gives.
pub itself : {A : Type 0} (m : Run A) → Ensures (λ a. m ≡ done a) m
itself (done a) = returned (λ i. done a)
itself (fault e) = faulted
