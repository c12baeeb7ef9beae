-- ===== src/Ir/Graph.antt =====
-- src/ir/cfg.hpp and cfg.cpp: graphs of basic blocks.
use minuet_lang_mirror.Base.{
  ℕ, ℤ, pos, negsuc, List, [], ◌∷◌, ◌++◌, Option, none, some, Bool, true, false, eq_ℤ,
  if◌then◌else◌, length, get_elem?, set, Run, done, fault, bad_pointer,
}
use minuet_lang_mirror.Ir.Steps.{Step}
use minuet_lang_mirror.Runtime.Values.{FastValue, HeapValue}

pub record BasicBlock : Type 0 where
  pub steps : List Step
  pub truthy_id : ℤ
  pub falsy_id : ℤ

-- A `CFG` is its vector of blocks.
abbrev pub Cfg : Type 0
Cfg = List BasicBlock

abbrev pub dud_bb_id : ℤ
dud_bb_id = negsuc 0

pub record FullIr : Type 0 where
  pub cfg_list : List Cfg
  pub constants : List FastValue
  pub pre_objects : List HeapValue
  pub main_id : ℤ

unfoldable pub get_head : Cfg → Option BasicBlock
get_head [] = none
get_head (b ∷ bs) = some b

-- A negative id becomes a `size_t` above every size.
unfoldable pub get_bb : Cfg → ℤ → Option BasicBlock
get_bb g (pos i) = get_elem? g i
get_bb g (negsuc i) = none

-- The newest block itself is written through the pointer.
unfoldable pub get_newest_bb : Cfg → Option BasicBlock
get_newest_bb [] = none
get_newest_bb (b ∷ []) = some b
get_newest_bb (b ∷ c ∷ bs) = get_newest_bb (c ∷ bs)

-- The id of the new block, and the graph with it.
unfoldable pub add_bb : Cfg → ℤ × Cfg
add_bb g =
    (pos (length g), g ++ record { steps = []; truthy_id = dud_bb_id; falsy_id = dud_bb_id } ∷ [])

-- The first of the two links that is free; with none free the block stays as it is.
unfoldable pub linked_to : ℤ → BasicBlock → BasicBlock
linked_to to_id b =
    if eq_ℤ b.truthy_id dud_bb_id
    then record b { truthy_id = to_id }
    else if eq_ℤ b.falsy_id dud_bb_id
    then record b { falsy_id = to_id }
    else b

-- `target_opt != nullptr`: an empty optional differs from every pointer, and the pointer to a block
-- is never null.
abbrev differs_from_null : Option BasicBlock → Bool
differs_from_null none = true
differs_from_null (some b) = true

-- Through `target_opt.value_or(nullptr)`.
abbrev set_link : Cfg → ℕ → ℤ → Option BasicBlock → Run (Bool × Cfg)
unfolding linked_to
set_link g i to_id none = fault bad_pointer
set_link g i to_id (some b) = done (true, set g i (linked_to to_id b))

unfoldable pub link_found : Cfg → ℕ → ℤ → Option BasicBlock → Run (Bool × Cfg)
unfolding linked_to
link_found g i to_id target_opt =
    if differs_from_null target_opt then set_link g i to_id target_opt else done (false, g)

-- A block that is missing passes the test, and the null pointer is then dereferenced. A negative id
-- is missing.
abbrev index_of : ℤ → ℕ
index_of (pos i) = i
index_of (negsuc i) = 0

unfoldable pub link_bb : Cfg → ℤ → ℤ → Run (Bool × Cfg)
unfolding link_found get_bb
link_bb g from_id to_id = link_found g (index_of from_id) to_id (get_bb g from_id)
