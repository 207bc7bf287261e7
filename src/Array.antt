-- ===== src/Array.antt =====
-- src/core/arrayobj.c and arrayobj.h: arrays with spare slots.
-- A slot that holds no element is `none`, whatever is written there.
pub mod Laws
pub mod Middle
use zis_lang.Common.{
  ℕ, zero, suc, ◌+◌, ◌-◌, ◌*◌, ◌/◌, Bool, true, false, ◌&&◌, List, [], ◌∷◌, ◌++◌, Option, none,
  some, ltb, leb, ◌==◌, if◌then◌else◌, length, get_or, set, replicate,
}

-- struct zis_array_obj; the capacity is the length of `data`
pub record Array (A : Type 0) : Type 0 where
  pub data_ : List (Option A)
  pub len : ℕ

-- The capacity after a full array grew.
pub new_cap : ℕ → ℕ
new_cap old_cap = if leb 2 old_cap then old_cap * 2 else 4

module _ {A : Type 0} where
  -- zis_object_vec_copy and zis_object_vec_move to an offset; what is out of bounds is lost.
  pub write_at : ℕ → List (Option A) → List (Option A) → List (Option A)
  write_at (suc p) vs [] = []
  write_at (suc p) vs (d ∷ ds) = d ∷ write_at p vs ds
  write_at zero [] ds = ds
  write_at zero (v ∷ vs) [] = []
  write_at zero (v ∷ vs) (d ∷ ds) = v ∷ write_at zero vs ds

  -- `n` slots from an offset on
  pub slots : ℕ → ℕ → List (Option A) → List (Option A)
  slots p n [] = []
  slots (suc p) n (d ∷ ds) = slots p n ds
  slots zero zero (d ∷ ds) = []
  slots zero (suc n) (d ∷ ds) = d ∷ slots zero n ds

  -- zis_array_slots_obj_new2: more slots, the old ones first
  pub grow : ℕ → List (Option A) → List (Option A)
  grow new_cap ds = ds ++ replicate (new_cap - length ds) none

  -- zis_array_obj_reserve
  pub reserve : Array A → ℕ → Array A
  unfolding grow
  reserve self new_cap =
      if leb new_cap (length self.data_)
      then self
      else record self { data_ = grow new_cap self.data_ }

  -- zis_array_obj_append
  pub append : Array A → A → Array A
  unfolding grow new_cap
  append self v =
      let old_cap = length self.data_ in
      let ds = if self.len == old_cap then grow (new_cap old_cap) self.data_ else self.data_ in
      record { data_ = set ds self.len (some v); len = self.len + 1 }

  -- zis_array_obj_pop; `none` for NULL
  pub pop : Array A → Option A × Array A
  pop self = if self.len == 0 then (none, self) else (
    get_or self.data_ (self.len - 1) none,
    record { data_ = set self.data_ (self.len - 1) none; len = self.len - 1 },
  )

  -- zis_array_obj_insert
  pub insert : Array A → ℕ → A → Bool × Array A
  unfolding append write_at slots new_cap
  insert self pos v =
      let old_cap = length self.data_ in
      let old = self.data_ in
      let ds =
        if self.len == old_cap
        then write_at 0 (slots 0 pos old) (replicate (new_cap old_cap) none)
        else old in
      if leb self.len pos
      then (if ltb self.len pos then (false, self) else (true, append self v))
      else (
        true,
        record {
          data_ = set (write_at (pos + 1) (slots pos (self.len - pos) old) ds) pos (some v);
          len = self.len + 1;
        },
      )

  -- zis_array_obj_remove
  pub remove : Array A → ℕ → Bool × Array A
  unfolding pop write_at slots
  remove self pos =
      let old_cap = length self.data_ in
      let old = self.data_ in
      let ds =
        if leb self.len (old_cap / 2) && leb 16 self.len
        then write_at 0 (slots 0 pos old) (replicate self.len none)
        else old in
      if leb self.len pos
      then (false, self)
      else if pos == self.len - 1
      then (true, (pop self).1)
      else (
        true,
        record {
          data_ =
              set (write_at pos (slots (pos + 1) (self.len - 1 - pos) old) ds) (self.len - 1) none;
          len = self.len - 1;
        },
      )
