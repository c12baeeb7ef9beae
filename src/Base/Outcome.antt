-- ===== src/Base/Outcome.antt =====
-- The outcome of code that may leave the defined behaviour of C++.
use Prim.Native.Nat.{ℕ}
use mathlib.Core.Path.{◌≡◌, refl}
use mathlib.Core.List.{List}
use mathlib.Core.Option.{Option, none, some}
use minuet_lang_mirror.Base.Int.{ℤ, pos, negsuc}
use minuet_lang_mirror.Base.Lists.{get_elem?, set}

-- An index outside its vector, a pointer to no object, an empty optional that is read, a signed
-- overflow, a `substr` that begins behind its text (`std::out_of_range`), and a recursion that has
-- used up its fuel.
pub data Fault : Type 0 where
  bad_index bad_pointer bad_optional overflow out_of_range no_fuel : Fault

pub data Run {ℓ} (A : Type ℓ) : Type ℓ where
  done : A → Run A
  fault : Fault → Run A

infixl 5 ◌>>=◌
abbrev pub ◌>>=◌ {ℓ κ} : {A : Type ℓ} {B : Type κ} → Run A → (A → Run B) → Run B
done a >>= f = f a
fault e >>= f = fault e

pub >>=-eq-done {ℓ κ} :
    {A : Type ℓ} {B : Type κ} (m : Run A) (f : A → Run B) {b : B}
    → (m >>= f) ≡ done b
    → (a : A) × (m ≡ done a) × (f a ≡ done b)
>>=-eq-done (done a) f h = (a, refl, h)
>>=-eq-done (fault e) f h = cc

abbrev pub from_option {ℓ} : {A : Type ℓ} → Fault → Option A → Run A
from_option e none = fault e
from_option e (some a) = done a

-- A vector's `operator[]`, whose index is a signed number.
module _ {ℓ} {A : Type ℓ} where
  abbrev pub read_at : List A → ℤ → Run A
  read_at xs (pos i) = from_option bad_index (get_elem? xs i)
  read_at xs (negsuc i) = fault bad_index

  abbrev pub write_in : List A → ℕ → A → Option A → Run (List A)
  write_in xs i v none = fault bad_index
  write_in xs i v (some old) = done (set xs i v)

  abbrev pub write_at : List A → ℤ → A → Run (List A)
  write_at xs (pos i) v = write_in xs i v (get_elem? xs i)
  write_at xs (negsuc i) v = fault bad_index
