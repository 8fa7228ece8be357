-- ===== src/RamDisk/Tests.antt =====
-- The theorems on tools/apps/rd/rd.c at two files, `d/a` and `b`.
use tachyon.Prelude.{true, false, some, List, [], ◌∷◌, ◌==◌, if◌then◌else◌, length, take}
use tachyon.RamDisk.{Host}
use tachyon.RamDisk.Pack.{Entry}

abbrev two_files : List Entry
two_files = (100 ∷ 47 ∷ 97 ∷ [], 1 ∷ 2 ∷ 3 ∷ []) ∷ (98 ∷ [], []) ∷ []

abbrev plain_host : Host
plain_host = record {
  stat = λ path. if length path == 3 then some ((false, 3)) else some ((false, 0));
  open_source = λ path. if length path == 3 then some (1 ∷ 2 ∷ 3 ∷ []) else some [];
  write = λ written bs. some (length bs);
  read = λ left n. some (length (take n left));
  sendfile = λ written left n. some (length (take n left));
  may_create = λ name. true;
}
