-- ===== src/Log/Writers.antt =====
-- The table of log destinations of src/log.c. A writer is the address of its function, and 0 is NULL;
-- what `log_write` does is the list of the writers that it calls, in order.
pub mod Calls
use tachyon.Prelude.{
  ℕ, Bool, true, false, not, ◌&&◌, Option, none, some, List, [], ◌∷◌, leb, ◌==◌, if◌then◌else◌,
}
use tachyon.Text.{Text, strcmp, is_equal}

pub record Destination : Type 0 where
  pub writer : ℕ
  pub level : ℕ
  pub name : Text

-- LOG_DEFAULT_LEVEL, which is Warning
abbrev pub default_level : ℕ
default_level = 2

-- The first free entry of the table is taken.
pub log_add_writer : ℕ → Text → List Destination → Bool × List Destination
log_add_writer writer descr [] = (false, [])
log_add_writer writer descr (d ∷ rest) =
    let (ok, rest') = log_add_writer writer descr rest in
    if d.writer == 0
    then (true, record { writer = writer; level = default_level; name = descr } ∷ rest)
    else (ok, d ∷ rest')

-- `!dest || strcmp(dest, destinations[idx].name) == 0`
abbrev pub is_meant : Option Text → Text → Bool
is_meant none name = true
is_meant (some dest) name = is_equal (strcmp dest name)

pub log_set_level : Option Text → ℕ → List Destination → List Destination
log_set_level dest lvl [] = []
log_set_level dest lvl (d ∷ rest) =
    (if not (d.writer == 0) && is_meant dest d.name then record d { level = lvl } else d)
    ∷ log_set_level dest lvl rest

pub log_write : ℕ → List Destination → List ℕ
log_write lvl [] = []
log_write lvl (d ∷ rest) =
    let later = log_write lvl rest in
    if not (d.writer == 0) && leb lvl d.level then d.writer ∷ later else later
