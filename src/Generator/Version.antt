-- ===== src/Generator/Version.antt =====
-- The version of the command cmg (mock/cmd/cmg/pkg/version.go).
use clue.Base.{ℕ, [], ◌∷◌, ◌++◌, Bytes, codes}
use clue.Base.Int.{decimal}

-- `Major`, `Minor`, `Build` and `Suffix`
abbrev pub major : ℕ
major = 0

abbrev pub minor : ℕ
minor = 18

abbrev pub build : ℕ
build = 1

abbrev pub suffix : Bytes
suffix = []

abbrev pub numbers_text : Bytes
numbers_text =
    codes "v" ++ (decimal major ++ (codes "." ++ (decimal minor ++ (codes "." ++ decimal build))))

-- `Version`
abbrev pub version : Bytes
version = elim suffix [ [] ↦ numbers_text | c ∷ rest ↦ numbers_text ++ (codes "-" ++ c ∷ rest) ]
