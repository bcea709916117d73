-- ===== src/Release/Chips.antt =====
-- scripts/check_release_surface.py: `CHIPS`, in the order of the release.
use sp1_lean.Base.{List, [], ◌∷◌, Text, codes}

pub record Chip : Type 0 where
  pub id : Text
  pub name : Text
  pub anchor : Text

abbrev pub chip : Text → Text → Text → Chip
chip i n a = record { id = i; name = n; anchor = a }

abbrev pub chips : List Chip
chips =
    chip (codes "add") (codes "Add") (codes "add_real_row_satisfiable")
    ∷ chip (codes "addi") (codes "Addi") (codes "addi_real_row_satisfiable")
    ∷ chip (codes "addw") (codes "Addw") (codes "addw_real_row_satisfiable")
    ∷ chip (codes "sub") (codes "Sub") (codes "sub_real_row_satisfiable")
    ∷ chip (codes "subw") (codes "Subw") (codes "subw_real_row_satisfiable")
    ∷ chip (codes "bitwise") (codes "Bitwise") (codes "bitwise_and_real_row_satisfiable")
    ∷ chip (codes "lt") (codes "Lt") (codes "lt_slt_true_real_row_satisfiable")
    ∷ chip (codes "shiftLeft") (codes "ShiftLeft") (codes "shiftleft_sll_real_row_satisfiable")
    ∷ chip (codes "shiftRight") (codes "ShiftRight") (codes "shiftright_srl_real_row_satisfiable")
    ∷ chip (codes "jal") (codes "Jal") (codes "jal_real_row_satisfiable")
    ∷ chip (codes "jalr") (codes "Jalr") (codes "jalr_real_row_satisfiable")
    ∷ chip (codes "branch") (codes "Branch") (codes "branch_beq_taken_real_row_satisfiable")
    ∷ chip (codes "uType") (codes "UType") (codes "utype_lui_real_row_satisfiable")
    ∷ chip (codes "loadByte") (codes "LoadByte") (codes "loadbyte_real_row_satisfiable")
    ∷ chip (codes "loadHalf") (codes "LoadHalf") (codes "loadhalf_real_row_satisfiable")
    ∷ chip (codes "loadWord") (codes "LoadWord") (codes "loadword_real_row_satisfiable")
    ∷ chip (codes "loadDouble") (codes "LoadDouble") (codes "loaddouble_real_row_satisfiable")
    ∷ chip (codes "loadX0") (codes "LoadX0") (codes "loadx0_real_row_satisfiable")
    ∷ chip (codes "storeByte") (codes "StoreByte") (codes "storebyte_real_row_satisfiable")
    ∷ chip (codes "storeHalf") (codes "StoreHalf") (codes "storehalf_real_row_satisfiable")
    ∷ chip (codes "storeWord") (codes "StoreWord") (codes "storeword_real_row_satisfiable")
    ∷ chip (codes "storeDouble") (codes "StoreDouble") (codes "storedouble_real_row_satisfiable")
    ∷ chip (codes "mul") (codes "Mul") (codes "mul_real_row_satisfiable")
    ∷ chip (codes "divRem") (codes "DivRem") (codes "divrem_divu_real_row_satisfiable")
    ∷ chip (codes "aluX0") (codes "AluX0") (codes "alux0_real_row_satisfiable")
    ∷ []
