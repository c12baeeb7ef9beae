-- ===== src/Runtime/HeapStorage/Invariant.antt =====
-- The invariant of `HeapStorage` (src/runtime/heap_storage.cpp): what the slots, the queue of freed
-- slots, the counters and the memory say of one another.
use minuet_lang_mirror.Base.{
  ℕ, zero, suc, ◌+◌, ◌*◌, ◌≤◌, ◌<◌, ◌≡◌, refl, sym, ap, ◌≢◌, Bool, true, false, Option, none, some,
  List, [], ◌∷◌, ◌++◌, length, get_elem?, set, replicate,
}
use minuet_lang_mirror.Runtime.Values.{Addr}
use minuet_lang_mirror.Runtime.HeapStorage.{HeapStorage}

abbrev pub is_some {ℓ} : {A : Type ℓ} → Option A → Bool
is_some none = false
is_some (some a) = true

-- The slots that hold an object.
unfoldable pub live : List (Option Addr) → ℕ
live [] = 0
live (none ∷ xs) = live xs
live (some p ∷ xs) = suc (live xs)

abbrev pub All {ℓ κ} : {A : Type ℓ} → (A → Type κ) → List A → Type κ
All P [] = Unit
All P (x ∷ xs) = P x × All P xs

abbrev pub Distinct : List ℕ → Type 0
Distinct [] = Unit
Distinct (x ∷ xs) = All (λ y. y ≢ x) xs × Distinct xs

-- A slot that was in use and is empty.
abbrev pub IsHole : List (Option Addr) → ℕ → ℕ → Type 0
IsHole objects next_id id = (id < next_id) × (get_elem? objects id ≡ some none)

pub record IsValid (h : HeapStorage) : Type 0 where
  pub capacity : length h.objects ≡ 1024
  pub bounded : h.next_id ≤ 1024
  pub scored : h.overhead ≡ 16 * live h.objects
  pub counted : live h.objects + length h.hole_list ≡ h.next_id
  pub holes_empty : All (IsHole h.objects h.next_id) h.hole_list
  pub holes_distinct : Distinct h.hole_list
  pub beyond_empty : (i : ℕ) → h.next_id ≤ i → i < 1024 → get_elem? h.objects i ≡ some none
  pub owned :
      (i p : ℕ)
      → get_elem? h.objects i ≡ some (some p)
      → (p < h.next_addr) × (is_some (h.store p) ≡ true)
  pub unique :
      (i j p : ℕ)
      → get_elem? h.objects i ≡ some (some p)
      → get_elem? h.objects j ≡ some (some p)
      → i ≡ j
  pub unborn : (p : ℕ) → h.next_addr ≤ p → h.store p ≡ none

pub live-set-some :
    (xs : List (Option Addr)) (i p : ℕ)
    → get_elem? xs i ≡ some none
    → live (set xs i (some p)) ≡ suc (live xs)
unfolding live
live-set-some [] i p e = absurd (cc)
live-set-some (none ∷ xs) zero p e = refl
live-set-some (some q ∷ xs) zero p e = absurd (cc)
live-set-some (none ∷ xs) (suc i) p e = live-set-some xs i p e
live-set-some (some q ∷ xs) (suc i) p e = ap suc (live-set-some xs i p e)

pub live-set-none :
    (xs : List (Option Addr)) (i q : ℕ)
    → get_elem? xs i ≡ some (some q)
    → live xs ≡ suc (live (set xs i none))
unfolding live
live-set-none [] i q e = absurd (cc)
live-set-none (none ∷ xs) zero q e = absurd (cc)
live-set-none (some p ∷ xs) zero q e = refl
live-set-none (none ∷ xs) (suc i) q e = live-set-none xs i q e
live-set-none (some p ∷ xs) (suc i) q e = ap suc (live-set-none xs i q e)

pub live-replicate : (n : ℕ) → live (replicate n none) ≡ 0
unfolding live
live-replicate zero = refl
live-replicate (suc n) = live-replicate n

pub All-append {ℓ} :
    {A : Type ℓ} (P : A → Type 0) (xs : List A) (x : A) → All P xs → P x → All P (xs ++ x ∷ [])
All-append P [] x h p = (p, tt)
All-append P (y ∷ ys) x (q, h) p = (q, All-append P ys x h p)

pub All-mono {ℓ} :
    {A : Type ℓ} (P Q : A → Type 0) (xs : List A) → ((a : A) → P a → Q a) → All P xs → All Q xs
All-mono P Q [] f h = tt
All-mono P Q (x ∷ xs) f (p, h) = (f x p, All-mono P Q xs f h)

-- Where every item satisfies both, the weaker predicate follows.
pub All-mono₂ {ℓ} :
    {A : Type ℓ} (P Q R : A → Type 0) (xs : List A)
    → ((a : A) → P a → Q a → R a)
    → All P xs
    → All Q xs
    → All R xs
All-mono₂ P Q R [] f h k = tt
All-mono₂ P Q R (x ∷ xs) f (p, h) (q, k) = (f x p q, All-mono₂ P Q R xs f h k)

pub Distinct-append :
    (xs : List ℕ) (x : ℕ) → Distinct xs → All (λ y. y ≢ x) xs → Distinct (xs ++ x ∷ [])
Distinct-append [] x d n = (tt, tt)
Distinct-append (y ∷ ys) x (f, d) (m, n) =
    (All-append _ ys x f (λ e. m (sym e)), Distinct-append ys x d n)
