-- ===== src/Codegen/Registers/Ranges.antt =====
-- The free registers of a frame as sets.
use zis_lang.Common.{
  ℕ, zero, suc, ◌+◌, ◌≤◌, ◌<◌, ◌≡◌, refl, sym, Bool, true, false, ◌&&◌, ◌||◌, not, List, [], ◌∷◌,
  some, ltb, leb, get_elem?, arith, ◌%◌, ◌^◌,
}
use zis_lang.Codegen.Registers.{FreeRegs, Frame, remove_at, advance_start}

-- Entries from lo to hi that are not empty, in order, and do not touch.
abbrev pub AreRanges : ℕ → List FreeRegs → ℕ → Type 0
AreRanges lo [] hi = Unit {0}
AreRanges lo (x ∷ list) hi =
    (lo ≤ x.start) × (x.start < x.end) × (x.end ≤ hi) × AreRanges (suc x.end) list hi

abbrev pub within : FreeRegs → ℕ → Bool
within x r = leb x.start r && ltb r x.end

abbrev pub covers : List FreeRegs → ℕ → Bool
covers [] r = false
covers (x ∷ list) r = within x r || covers list r

-- A register is in use: allocated, and not given back.
abbrev pub is_live : Frame → ℕ → Bool
is_live fs r = (leb 1 r && leb r fs.reg_allocated_max) && not (covers fs.free_regs_list r)

abbrev pub among : ℕ → ℕ → ℕ → Bool
among start n r = leb start r && ltb r (start + n)

-- What holds of the registers between the calls.
pub record IsFrame (fs : Frame) : Type 0 where
  pub ranges : AreRanges 1 fs.free_regs_list fs.reg_allocated_max
  pub touched : fs.reg_allocated_max ≤ fs.reg_touched_max

pub AreRanges-lower :
    (lo lo' hi : ℕ) (list : List FreeRegs) → lo' ≤ lo → AreRanges lo list hi → AreRanges lo' list hi
AreRanges-lower lo lo' hi [] l h = tt
AreRanges-lower lo lo' hi (x ∷ list) l h = (omega arith, h.1, h.2, h.3)

pub AreRanges-upper :
    (lo hi hi' : ℕ) (list : List FreeRegs) → hi ≤ hi' → AreRanges lo list hi → AreRanges lo list hi'
AreRanges-upper lo hi hi' [] l h = tt
AreRanges-upper lo hi hi' (x ∷ list) l h =
    (h.0, h.1, omega arith, AreRanges-upper (suc x.end) hi hi' list l h.3)

pub covers-below :
    (lo hi r : ℕ) (list : List FreeRegs) → AreRanges lo list hi → r < lo → covers list r ≡ false
covers-below lo hi r [] h l = refl
covers-below lo hi r (x ∷ list) h l = ground (arith, covers-below (suc x.end) hi r list h.3)

pub covers-above :
    (lo hi r : ℕ) (list : List FreeRegs) → AreRanges lo list hi → hi ≤ r → covers list r ≡ false
covers-above lo hi r [] h l = refl
covers-above lo hi r (x ∷ list) h l = ground (arith, covers-above (suc x.end) hi r list h.3)

pub covers-from :
    (lo hi r : ℕ) (list : List FreeRegs) → AreRanges lo list hi → covers list r ≡ true → lo ≤ r
covers-from lo hi r [] h c = cc
covers-from lo hi r (x ∷ list) h c = ground (arith, covers-from (suc x.end) hi r list h.3)

-- What is found at an index
pub record IsEntry (lo hi : ℕ) (list : List FreeRegs) (x : FreeRegs) : Type 0 where
  pub above : lo ≤ x.start
  pub filled : x.start < x.end
  pub below : x.end ≤ hi
  pub covered : (r : ℕ) → within x r ≡ true → covers list r ≡ true

pub nth_bounds :
    (lo hi i : ℕ) (list : List FreeRegs) (x : FreeRegs)
    → AreRanges lo list hi
    → get_elem? list i ≡ some x
    → IsEntry lo hi list x
nth_bounds lo hi i [] x h e = cc
nth_bounds lo hi zero (y ∷ list) x h e =
    let q : y ≡ x = cc in
    rw (sym q) (record { above = h.0; filled = h.1; below = h.2; covered = λ r w. ground arith })
nth_bounds lo hi (suc i) (y ∷ list) x h e =
    let ih = nth_bounds (suc y.end) hi i list x h.3 e in
    record {
      above = omega (arith, ih.above);
      filled = ih.filled;
      below = ih.below;
      covered = λ r w. ground (arith, ih.covered r w);
    }

pub remove_at-AreRanges :
    (lo hi i : ℕ) (list : List FreeRegs) → AreRanges lo list hi → AreRanges lo (remove_at i list) hi
unfolding remove_at
remove_at-AreRanges lo hi i [] h = tt
remove_at-AreRanges lo hi zero (y ∷ list) h =
    AreRanges-lower (suc y.end) lo hi list (omega arith) h.3
remove_at-AreRanges lo hi (suc i) (y ∷ list) h =
    (h.0, h.1, h.2, remove_at-AreRanges (suc y.end) hi i list h.3)

pub remove_at-covers :
    (lo hi i r : ℕ) (list : List FreeRegs) (x : FreeRegs)
    → AreRanges lo list hi
    → get_elem? list i ≡ some x
    → covers (remove_at i list) r ≡ (covers list r && not (within x r))
unfolding remove_at
remove_at-covers lo hi i r [] x h e = cc
remove_at-covers lo hi zero r (y ∷ list) x h e =
    let q : y ≡ x = cc in rw (sym q) (ground (arith, covers-below (suc y.end) hi r list h.3))
remove_at-covers lo hi (suc i) r (y ∷ list) x h e =
    let x' = nth_bounds (suc y.end) hi i list x h.3 e in
    ground (arith, x'.above, remove_at-covers (suc y.end) hi i r list x h.3 e)

-- The entry at an index loses its first registers.
pub advance_start-AreRanges :
    (lo hi i n : ℕ) (list : List FreeRegs) (x : FreeRegs)
    → AreRanges lo list hi
    → get_elem? list i ≡ some x
    → x.start + n < x.end
    → x.end < 2 ^ 32
    → AreRanges lo (advance_start i n list) hi
unfolding advance_start
advance_start-AreRanges lo hi i n [] x h e l b = tt
advance_start-AreRanges lo hi zero n (y ∷ list) x h e l b =
    let q : y ≡ x = cc in
    let l' : y.start + n < y.end = (rw q l) in
    let b' : y.end < 2 ^ 32 = (rw q b) in
    let m : (y.start + n) % 2 ^ 32 ≡ y.start + n = omega arith in rw m (omega arith, l', h.2, h.3)
advance_start-AreRanges lo hi (suc i) n (y ∷ list) x h e l b =
    (h.0, h.1, h.2, advance_start-AreRanges (suc y.end) hi i n list x h.3 e l b)

pub advance_start-covers :
    (lo hi i n r : ℕ) (list : List FreeRegs) (x : FreeRegs)
    → AreRanges lo list hi
    → get_elem? list i ≡ some x
    → x.start + n < x.end
    → x.end < 2 ^ 32
    → covers (advance_start i n list) r ≡ (covers list r && not (among x.start n r))
unfolding advance_start
advance_start-covers lo hi i n r [] x h e l b = cc
advance_start-covers lo hi zero n r (y ∷ list) x h e l b =
    let q : y ≡ x = cc in
    let l' : y.start + n < y.end = (rw q l) in
    let b' : y.end < 2 ^ 32 = (rw q b) in
    let m : (y.start + n) % 2 ^ 32 ≡ y.start + n = omega arith in
    rw (sym q, m) (ground (arith, covers-below (suc y.end) hi r list h.3))
advance_start-covers lo hi (suc i) n r (y ∷ list) x h e l b =
    let x' = nth_bounds (suc y.end) hi i list x h.3 e in
    ground (arith, x'.above, x'.filled, advance_start-covers (suc y.end) hi i n r list x h.3 e l b)
