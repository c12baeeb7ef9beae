-- ===== src/Codegen/Layout/Noting.antt =====
-- The loops and conditionals of an emitter, and the breaks that the innermost loop has recorded.
use minuet_lang_mirror.Base.{
  ℕ, ℤ, pos, negsuc, ◌≡◌, refl, ap, Bool, true, false, List, [], ◌∷◌, ◌++◌,
}
use mathlib.Core.List.{append_assoc, append-nil}
use minuet_lang_mirror.Codegen.Emitter.State.{ActiveIfElse, ActiveLoop}

-- A loop and a conditional that have just begun.
abbrev pub fresh_loop : ℕ → ActiveLoop
fresh_loop base = record {
  brk_ips = [];
  cont_ips = [];
  start_ip = pos base;
  check_ip = pos 0;
  exit_ip = pos 0;
}

abbrev pub fresh_if : ActiveIfElse
fresh_if = record { check_ip = pos 0; alt_ip = negsuc 0; end_ip = pos 0 }

-- The innermost loop, if there is one, has recorded more breaks.
abbrev pub note : List ActiveLoop → List ℤ → List ActiveLoop
note [] ips = []
note (l ∷ []) ips = record l { brk_ips = l.brk_ips ++ ips } ∷ []
note (l ∷ m ∷ ls) ips = l ∷ note (m ∷ ls) ips

abbrev pub room : Bool → List ActiveLoop → Bool
room true [] = false
room inside ls = true

pub room-note :
    (inside : Bool) (ls : List ActiveLoop) (ips : List ℤ)
    → room inside ls ≡ true
    → room inside (note ls ips) ≡ true
room-note false ls ips h = refl
room-note true [] ips h = h
room-note true (l ∷ []) ips h = refl
room-note true (l ∷ m ∷ ls) ips h = refl

pub room-append :
    (inside : Bool) (ls : List ActiveLoop) (l : ActiveLoop) → room inside (ls ++ l ∷ []) ≡ true
room-append false ls l = refl
room-append true [] l = refl
room-append true (m ∷ ls) l = refl

pub note-nil : (ls : List ActiveLoop) → note ls [] ≡ ls
note-nil [] = refl
note-nil (l ∷ []) = rw (append-nil) refl
note-nil (l ∷ m ∷ ls) = ap (◌∷◌ l) (note-nil (m ∷ ls))

pub note-note : (ls : List ActiveLoop) (a b : List ℤ) → note (note ls a) b ≡ note ls (a ++ b)
note-note [] a b = refl
note-note (l ∷ []) a b = rw (append_assoc) refl
note-note (l ∷ m ∷ []) a b = ap (◌∷◌ l) (note-note (m ∷ []) a b)
note-note (l ∷ m ∷ n ∷ ls) a b = ap (◌∷◌ l) (note-note (m ∷ n ∷ ls) a b)

pub note-append :
    (ls : List ActiveLoop) (l : ActiveLoop) (ips : List ℤ)
    → note (ls ++ l ∷ []) ips ≡ ls ++ record l { brk_ips = l.brk_ips ++ ips } ∷ []
note-append [] l ips = refl
note-append (m ∷ []) l ips = refl
note-append (m ∷ n ∷ ls) l ips = ap (◌∷◌ m) (note-append (n ∷ ls) l ips)
