-- ===== src/Tests/Cells.antt =====
-- Vectors of cells: inputs for the functions of src/core/intobj.c on the magnitudes of integers.
use zis_lang.Common.{ℕ, ◌*◌, List, [], ◌∷◌, arith, true}
use zis_lang.Bigint.{mul}
use zis_lang.Bigint.Value.{value, IsCells}
use zis_lang.Bigint.Mul.{Holds, mul-Holds}

abbrev top : ℕ
top = 4294967295

abbrev all_ones : List ℕ
all_ones = top ∷ top ∷ []

abbrev one_and_two : List ℕ
one_and_two = 1 ∷ 2 ∷ []

all_ones-IsCells : IsCells all_ones
all_ones-IsCells = (omega arith, (omega arith, tt))

one_and_two-IsCells : IsCells one_and_two
one_and_two-IsCells = (omega arith, (omega arith, tt))

mul-Holds_example : Holds (mul true all_ones one_and_two 4) (value all_ones * value one_and_two) 4
mul-Holds_example =
    mul-Holds all_ones one_and_two 4 all_ones-IsCells one_and_two-IsCells (omega arith)
