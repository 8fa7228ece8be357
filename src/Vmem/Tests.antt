-- ===== src/Vmem/Tests.antt =====
-- Runs of src/vmem.c and src/vmem_mgmt.c at concrete inputs.
use tachyon.Prelude.{ℕ, true, false, [], ◌∷◌, arith}
use tachyon.Vmem.{Flags, no_flags, no_entry, Level, Tables, vmem_map}
use tachyon.Vmem.RoundTrip.{MapEnd, vmem_map-MapEnd}
use tachyon.Vmem.Clobber.{vmem_mgmt_clobber_spc}
use tachyon.Vmem.Clobber.Closed.{Closed, vmem_mgmt_clobber_spc-Closed}
use tachyon.Vmem.Global.{Mapping}

abbrev no_table : Level
no_table t i = no_entry

abbrev empty_space : Tables
empty_space = record {
  pml4 = no_table;
  pdpt = no_table;
  pd = no_table;
  pt = no_table;
  fresh = 40960 ∷ 45056 ∷ 49152 ∷ [];
}

abbrev user_page : Flags
user_page = record no_flags { writable = true; user = true }

vmem_map-MapEnd_example :
    MapEnd 8192 1048576 1073745920 false (vmem_map empty_space 8192 1048576 1073745920 user_page)
vmem_map-MapEnd_example =
    vmem_map-MapEnd empty_space 8192 1048576 1073745920 user_page
      (omega arith, (omega arith, (omega arith, omega arith)))

-- Two levels of tables lead to a page directory that is empty.
abbrev table_at : ℕ → Level
table_at a t i = record { addr = a; flags = record no_flags { present = true; writable = true } }

abbrev empty_directory : Tables
empty_directory = record empty_space { pml4 = table_at 12288; pdpt = table_at 16384 }

vmem_mgmt_clobber_spc-Closed_example :
    Closed 20480
      (empty_directory.pml4 8192 3)
      ((vmem_mgmt_clobber_spc 20480 24576 8192 (empty_directory, [])).0.pml4 8192 3)
vmem_mgmt_clobber_spc-Closed_example =
    vmem_mgmt_clobber_spc-Closed 20480 24576 8192 3 empty_directory [] (omega arith)

abbrev large_mapping : Mapping
large_mapping = record { from = 2097152; to = 4194304; flags = record no_flags { large = true } }
