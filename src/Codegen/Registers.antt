-- ===== src/Codegen/Registers.antt =====
-- src/core/codegen.c, the registers of a struct frame_scope. The array free_regs_list is the list of
-- its entries in use; its capacity is not seen. `none` is an access outside it, or the assertion
-- behind the search of frame_scope_alloc_regs, where it fails. Numbers are unsigned int and wrap
-- around.
pub mod Ranges
pub mod Insert
pub mod Search
pub mod Alloc
pub mod Free
pub mod Rest
use zis_lang.Common.{
  ℕ, zero, suc, ◌+◌, ◌-◌, ◌/◌, ◌%◌, ◌^◌, Bool, true, false, ◌&&◌, ◌||◌, not, Option, none, some,
  List, [], ◌∷◌, ltb, leb, ◌==◌, if◌then◌else◌, length, get_elem?,
}

-- struct frame_scope_free_regs
pub record FreeRegs : Type 0 where
  pub start : ℕ
  pub end : ℕ

-- The registers of struct frame_scope
pub record Frame : Type 0 where
  pub reg_touched_max : ℕ
  pub reg_allocated_max : ℕ
  pub free_regs_list : List FreeRegs

-- frame_scope_create, frame_scope_reset
abbrev pub fresh_frame : Frame
fresh_frame = record { reg_touched_max = 0; reg_allocated_max = 0; free_regs_list = [] }

-- frame_scope__free_regs_list_remove
unfoldable pub remove_at : ℕ → List FreeRegs → List FreeRegs
remove_at position [] = []
remove_at zero (x ∷ list) = list
remove_at (suc position) (x ∷ list) = x ∷ remove_at position list

-- The new entry in front of the one at its position, joined with it where they touch.
unfoldable pub join_next : FreeRegs → List FreeRegs → List FreeRegs
join_next d [] = d ∷ []
join_next d (y ∷ list) =
    if d.end == y.start then record y { start = d.start } ∷ list else d ∷ y ∷ list

-- The same behind an entry that ends where the new one starts.
unfoldable pub join_both : FreeRegs → FreeRegs → List FreeRegs → List FreeRegs
join_both x d [] = record x { end = d.end } ∷ []
join_both x d (y ∷ list) =
    if d.end == y.start
    then record x { end = y.end } ∷ list
    else record x { end = d.end } ∷ y ∷ list

-- frame_scope__free_regs_list_insert
unfoldable pub insert_at : ℕ → FreeRegs → List FreeRegs → List FreeRegs
unfolding join_next join_both
insert_at zero d list = join_next d list
insert_at (suc position) d [] = []
insert_at (suc zero) d (x ∷ list) =
    if x.end == d.start then join_both x d list else x ∷ join_next d list
insert_at (suc (suc position)) d (x ∷ list) = x ∷ insert_at (suc position) d list

-- `a - b` of two unsigned int
abbrev pub minus : ℕ → ℕ → ℕ
minus a b = (a + 2 ^ 32 - b) % 2 ^ 32

-- The loop of frame_scope_alloc_regs: an entry of n registers, or the shortest longer one with its
-- length.
pub data Fit : Type 0 where
  exact : ℕ → Fit
  best : ℕ → ℕ → Fit

unfoldable pub find_fit : ℕ → ℕ → List FreeRegs → ℕ → ℕ → Fit
find_fit n i [] min_n min_n_i = best min_n min_n_i
find_fit n i (regs_i ∷ list) min_n min_n_i =
    let regs_i_n = minus regs_i.end regs_i.start in
    let shorter = ltb n regs_i_n && ltb regs_i_n min_n in
    let rest =
      find_fit n (suc i) list (if shorter then regs_i_n else min_n)
        (if shorter then i else min_n_i) in
    if regs_i_n == n then exact i else rest

-- free_regs_list[min_n_i].start = reg + n
unfoldable pub advance_start : ℕ → ℕ → List FreeRegs → List FreeRegs
advance_start i n [] = []
advance_start zero n (x ∷ list) = record x { start = (x.start + n) % 2 ^ 32 } ∷ list
advance_start (suc i) n (x ∷ list) = x ∷ advance_start i n list

-- frame_scope_alloc_regs behind the search in the list
unfoldable pub alloc_new : Frame → ℕ → ℕ × Frame
alloc_new fs n =
    let reg = (fs.reg_allocated_max + 1) % 2 ^ 32 in
    let allocated = (fs.reg_allocated_max + n) % 2 ^ 32 in
    (
      reg,
      record fs {
        reg_allocated_max = allocated;
        reg_touched_max =
            if ltb fs.reg_touched_max allocated then allocated else fs.reg_touched_max;
      },
    )

unfoldable pub alloc_fit : Frame → ℕ → Fit → Option (ℕ × Frame)
unfolding remove_at advance_start alloc_new
alloc_fit fs n (exact i) = elim (get_elem? fs.free_regs_list i) [
  | none ↦ none
  | some regs ↦ some (regs.start, record fs { free_regs_list = remove_at i fs.free_regs_list })
]
alloc_fit fs n (best min_n i) =
    if min_n == 2 ^ 32 - 1 then some (alloc_new fs n) else (elim (get_elem? fs.free_regs_list i) [
      | none ↦ none
      | some regs ↦
          if ltb (((regs.start + n) % 2 ^ 32 + 1) % 2 ^ 32) regs.end
          then some (regs.start, record fs { free_regs_list = advance_start i n fs.free_regs_list })
          else none
    ])

-- frame_scope_alloc_regs
unfoldable pub alloc_regs : Frame → ℕ → Option (ℕ × Frame)
unfolding find_fit alloc_fit
alloc_regs fs n = alloc_fit fs n (find_fit n 0 fs.free_regs_list (2 ^ 32 - 1) 0)

-- The search of frame_scope_free_regs for the position of a register between two entries.
unfoldable pub search : ℕ → List FreeRegs → ℕ → ℕ → ℕ → Option ℕ
search zero list r index_l index_r = none
search (suc fuel) list r index_l index_r =
    let index_m = index_l + (index_r - index_l) / 2 in
    let left = search fuel list r index_l (index_m - 1) in
    let right = search fuel list r (index_m + 1) index_r in
    elim (get_elem? list index_m) [
      | none ↦ none
      | some m ↦
          if ltb r m.start
          then (if index_m == 0 then none else (elim (get_elem? list (index_m - 1)) [
            | none ↦ none
            | some p ↦ if ltb p.start r then some index_m else left
          ]))
          else (elim (get_elem? list (index_m + 1)) [
            | none ↦ none
            | some q ↦ if ltb r q.start then some (index_m + 1) else right
          ])
    ]

-- #1 of frame_scope_free_regs: the tail of the allocated region, and the free entry that then ends it
unfoldable pub shrink_tail : Frame → ℕ → Frame
unfolding remove_at
shrink_tail fs n =
    let allocated = minus fs.reg_allocated_max n in
    let last_i = length fs.free_regs_list - 1 in
    elim (get_elem? fs.free_regs_list last_i) [
      | none ↦ record fs { reg_allocated_max = allocated }
      | some last ↦
          if minus last.end 1 == allocated
          then record fs {
            reg_allocated_max = minus last.start 1;
            free_regs_list = remove_at last_i fs.free_regs_list;
          }
          else record fs { reg_allocated_max = allocated }
    ]

-- #2 to #4: the position of the new entry
unfoldable pub place : List FreeRegs → ℕ → Option ℕ
unfolding search
place [] start = some 0
place (x ∷ list) start =
    if ltb start x.start then some 0 else (elim (get_elem? (x ∷ list) (length list)) [
      | none ↦ none
      | some last ↦
          if leb last.end start
          then some (length (x ∷ list))
          else search (length (x ∷ list)) (x ∷ list) start 0 (length list)
    ])

-- frame_scope_free_regs
unfoldable pub free_regs : Frame → ℕ → ℕ → Option Frame
unfolding insert_at shrink_tail place
free_regs fs regs_start n =
    let freed : FreeRegs = record { start = regs_start; end = (regs_start + n) % 2 ^ 32 } in
    if minus freed.end 1 == fs.reg_allocated_max
    then some (shrink_tail fs n)
    else (elim (place fs.free_regs_list regs_start) [
      | none ↦ none
      | some position ↦
          some (record fs { free_regs_list = insert_at position freed fs.free_regs_list })
    ])
