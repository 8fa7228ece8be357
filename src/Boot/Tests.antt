-- ===== src/Boot/Tests.antt =====
-- The theorems on src/mboot.c at concrete values.
use tachyon.Prelude.{ℕ, ◌+◌, ◌≤◌, ◌<◌, ◌≡◌, refl, true, [], ◌∷◌, arith, ◌==◌, if◌then◌else◌}
use tachyon.Boot.{
  vtemp_reg_start, Temp, mboot_map, Mmap, Module, rd_virtual, rd_vsz, rd_loop, disk, rd_map,
}
use tachyon.Boot.Temporary.{MappedEnd, mboot_map-MappedEnd}
use tachyon.Boot.RamDisk.{In, rd_map-readable}

-- The first page of the region is taken.
abbrev first_taken : Temp
first_taken = record {
  pg_temp = vtemp_reg_start;
  resolved = λ p. if p == vtemp_reg_start then 8192 else 0;
}

mboot_map-MappedEnd_example :
    MappedEnd (λ p v. true) 69640 first_taken (mboot_map 241 (λ p v. true) 69640 first_taken)
mboot_map-MappedEnd_example =
    mboot_map-MappedEnd 240 (λ p v. true) 69640 first_taken refl (omega arith)

abbrev low_memory : Mmap
low_memory = record { size = 20; addr = 0; len = 654336; type = 1 }

abbrev hole : Mmap
hole = record { size = 20; addr = 654336; len = 4096; type = 2 }

-- A disk of 5000 bytes that starts within a page, and its byte 4500
abbrev two_pages : Module
two_pages = record { start = 1048832; end = 1053832 }

two_pages_map :
    rd_map (λ p v. true) two_pages
    ≡ disk (rd_virtual + 256) ((1048576, rd_virtual) ∷ (1052672, rd_virtual + 4096) ∷ [])
unfolding rd_map rd_loop
two_pages_map = refl

rd_map-readable_example :
    In 1052672 (rd_virtual + 4096) ((1048576, rd_virtual) ∷ (1052672, rd_virtual + 4096) ∷ [])
    × (◌≡◌ {A = ℕ} 660 660)
    × (rd_virtual ≤ rd_virtual + 256 + 4500)
    × (rd_virtual + 256 + 4500 < rd_virtual + rd_vsz)
rd_map-readable_example =
    rd_map-readable (λ p v. true) two_pages (rd_virtual + 256)
      ((1048576, rd_virtual) ∷ (1052672, rd_virtual + 4096) ∷ []) 4500 (omega arith) (omega arith)
      two_pages_map
