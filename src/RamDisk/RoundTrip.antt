-- ===== src/RamDisk/RoundTrip.antt =====
-- Packing with tools/apps/rd/rd.c and unpacking again.
use tachyon.Prelude.{ℕ, List, ◌++◌, length, drop}
use tachyon.RamDisk.{sizeof_header, header_bytes}
use tachyon.RamDisk.Pack.{Entry, body}

-- The image of the entries, with what the file had behind it before
abbrev image_of : List ℕ → List Entry → List ℕ
image_of old es =
    let made = header_bytes (length es) ++ body sizeof_header es in made ++ drop (length made) old
