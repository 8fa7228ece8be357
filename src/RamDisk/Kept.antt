-- ===== src/RamDisk/Kept.antt =====
-- What `extract` of tools/apps/rd/rd.c does to the directory, whatever the image holds.
use tachyon.Prelude.{◌≡◌, Bool, false, List, [], ◌∷◌, ◌++◌, if◌then◌else◌}
use tachyon.Text.{Text}
use tachyon.RamDisk.{Disk, has_file}

-- Each name is new when its file is made.
abbrev pub NewNames : Disk → Disk → Type 0
NewNames disk [] = Unit
NewNames disk ((name, content) ∷ made) =
    (has_file name disk ≡ false) × NewNames (disk ++ (name, content) ∷ []) made

-- The directory has its files as before, and behind them files with new names.
abbrev pub Grows : Disk → Disk → Type 0
Grows disk disk' = (made : Disk) × (disk' ≡ disk ++ made) × NewNames disk made

-- Unless it is a test, the directory only grows; else it stays.
abbrev pub KeptBy : Bool → Disk → Disk → Type 0
KeptBy test disk disk' = if test then disk' ≡ disk else Grows disk disk'
