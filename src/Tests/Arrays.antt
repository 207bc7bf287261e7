-- ===== src/Tests/Arrays.antt =====
-- Arrays of numbers, full and with a spare slot.
use zis_lang.Common.{ℕ, ◌≡◌, refl, true, [], ◌∷◌, none, some}
use zis_lang.Array.{Array, insert, remove}
use zis_lang.Array.Laws.{Holds}
use zis_lang.Array.Middle.{insert-Holds, remove-Holds}

-- The numbers 1, 2 and 3 in three slots.
abbrev full_array : Array ℕ
full_array = record { data_ = some 1 ∷ some 2 ∷ some 3 ∷ []; len = 3 }

full_array-Holds : Holds full_array (1 ∷ 2 ∷ 3 ∷ [])
full_array-Holds = record { spare = []; slots_eq = refl; len_eq = refl }

-- The same numbers in four slots.
abbrev roomy_array : Array ℕ
roomy_array = record { data_ = some 1 ∷ some 2 ∷ some 3 ∷ none ∷ []; len = 3 }

roomy_array-Holds : Holds roomy_array (1 ∷ 2 ∷ 3 ∷ [])
roomy_array-Holds = record { spare = none ∷ []; slots_eq = refl; len_eq = refl }

insert-Holds_example :
    ((insert full_array 1 9).0 ≡ true) × Holds (insert full_array 1 9).1 (1 ∷ 9 ∷ 2 ∷ 3 ∷ [])
insert-Holds_example = insert-Holds full_array (1 ∷ []) (2 ∷ 3 ∷ []) 9 full_array-Holds

remove-Holds_example :
    ((remove roomy_array 0).0 ≡ true) × Holds (remove roomy_array 0).1 (2 ∷ 3 ∷ [])
remove-Holds_example = remove-Holds roomy_array [] (2 ∷ 3 ∷ []) 1 roomy_array-Holds
