-- ===== src/Path.antt =====
-- src/path.c: paths as lists of components. The buffers come from `heap_alloc`, whose result the
-- code does not check; a buffer is the number of bytes asked for and the bytes written to it.
pub mod Split
pub mod RoundTrip
mod Tests
use tachyon.Prelude.{
  ℕ, zero, suc, ◌+◌, ◌-◌, Option, none, some, List, [], ◌∷◌, ◌++◌, leb, ◌==◌, if◌then◌else◌, length,
  drop,
}
use tachyon.Text.{Text, strncmp, strncpy, strlen, is_equal, strstr}

-- PATH_SEPERATOR
abbrev pub separator : Text
separator = 47 ∷ []

pub record Buffer : Type 0 where
  pub room : ℕ
  pub bytes : List ℕ

pub record FilePath : Type 0 where
  pub count : ℕ
  pub components : List Buffer

-- The text that a buffer holds.
pub text : List ℕ → Text
text [] = []
text (c ∷ bytes) = if c == 0 then [] else c ∷ text bytes

-- `while((comp = strstr(comp, PATH_SEPERATOR)) != NULL) { ++count; comp += sep_len; }`
pub count_loop : ℕ → Text → ℕ → Option ℕ
unfolding strstr strlen
count_loop zero comp count = none
count_loop (suc fuel) comp count = elim (strstr comp separator) [
  | none ↦ some count
  | some found ↦ count_loop fuel (drop (strlen separator) found) (count + 1)
]

-- The pointer difference `next - comp`, or the rest of the string.
component_length : Text → ℕ
unfolding strstr strlen
component_length comp = elim (strstr comp separator) [
  | some later ↦ length comp - length later
  | none ↦ strlen comp
]

-- `buf` with the first `comp_len` bytes of `comp` and the terminator.
pub component : Text → Buffer
unfolding component_length strncpy
component comp = record {
  room = component_length comp + 1;
  bytes = strncpy comp (component_length comp) ++ 0 ∷ [];
}

pub create_loop : ℕ → Text → List Buffer → Option (List Buffer)
unfolding strstr strlen component
create_loop zero comp done = none
create_loop (suc fuel) comp done = elim (strstr comp separator) [
  | none ↦ some done
  | some found ↦
      create_loop fuel (drop (strlen separator) found)
        (done ++ component (drop (strlen separator) found) ∷ [])
]

make_path : Option ℕ → Option (List Buffer) → Option FilePath
make_path (some count) (some components) = some (record { count = count; components = components })
make_path _ _ = none

-- `none` is NULL, for a path that does not begin with the separator. Each round of the loops
-- passes a character, so `strlen(p) + 1` rounds are enough.
pub path_create : Text → Option FilePath
unfolding count_loop create_loop make_path strncmp strlen is_equal
path_create p =
    if is_equal (strncmp p separator (strlen separator))
    then make_path (count_loop (suc (length p)) p 0) (create_loop (suc (length p)) p [])
    else none

pub total_length : List Buffer → ℕ
unfolding strlen text
total_length [] = 0
total_length (b ∷ rest) = strlen (text b.bytes) + total_length rest

-- The separator and the component, one after the other.
pub string_loop : List Buffer → List ℕ
unfolding strncpy strlen text
string_loop [] = 0 ∷ []
string_loop (b ∷ rest) =
    strncpy separator (strlen separator)
    ++ (strncpy (text b.bytes) (strlen (text b.bytes)) ++ string_loop rest)

-- `len` is read by `heap_alloc` before the separators and the terminator are added to it.
-- A write behind the bytes asked for ends in `overrun`, with what was asked for and what is written.
pub data Written : Type 0 where
  in_room : Buffer → Written
  overrun : ℕ → List ℕ → Written

pub path_string : FilePath → Written
unfolding total_length string_loop
path_string path =
    let bytes = string_loop path.components in
    let room = total_length path.components in
    if leb (length bytes) room
    then in_room (record { room = room; bytes = bytes })
    else overrun room bytes
