-- ===== src/RamDisk.antt =====
-- tools/apps/rd/rd.c and src/rd.h: the tool that packs files into the image of the initial ram disk
-- and takes them out again. A file is the list of its bytes; what the operating system answers is a
-- parameter.
pub mod Bytes
pub mod Pack
pub mod Unpack
pub mod RoundTrip
pub mod Kept
mod Tests
use tachyon.Prelude.{
  ℕ, zero, suc, ◌+◌, ◌-◌, ◌*◌, ◌/◌, ◌%◌, Bool, true, false, not, ◌&&◌, ◌||◌, Option, none, some,
  List, [], ◌∷◌, ◌++◌, ltb, ◌==◌, if◌then◌else◌, length, get_or, take, drop, replicate,
}
use tachyon.Text.{Text, next}

-- `rd_file_t`
pub record RdFile : Type 0 where
  pub hdr_size : ℕ
  pub start : ℕ
  pub size : ℕ
  pub name : List ℕ

-- RD_MAGIC, sizeof(rd_header_t), sizeof(rd_file_t) and sizeof(fhdr.name)
abbrev pub rd_magic : ℕ
rd_magic = 1146245714

abbrev pub sizeof_header : ℕ
sizeof_header = 12

abbrev pub sizeof_file : ℕ
sizeof_file = 76

abbrev pub sizeof_name : ℕ
sizeof_name = 64

-- What the calls of the operating system return; `none` is -1.
pub record Host : Type 0 where
  -- `stat`: whether the path is a directory, and `st_size`
  pub stat : Text → Option (Bool × ℕ)
  -- `open(…, O_RDONLY)`: the bytes of the file
  pub open_source : Text → Option (List ℕ)
  -- `write`: how many bytes it wrote behind those that are written
  pub write : List ℕ → List ℕ → Option ℕ
  -- `read`: how many bytes it read, of what the file has left, for the number asked for
  pub read : List ℕ → ℕ → Option ℕ
  -- `sendfile`: how many bytes it copied behind those that are written, of what the source has left
  pub sendfile : List ℕ → List ℕ → ℕ → Option ℕ
  -- `open(…, O_CREAT | O_EXCL | O_WRONLY)` of a name that does not exist
  pub may_create : Text → Bool

-- CHECK_CALL: the result is compared with -1 as a 32-bit number.
abbrev pub checked : Option ℕ → Option ℕ
checked none = none
checked (some n) = if n % 4294967296 == 4294967295 then none else some n

-- A `uint32_t` in memory, the least byte first
abbrev pub to_bytes : ℕ → List ℕ
to_bytes n = n % 256 ∷ n / 256 % 256 ∷ n / 65536 % 256 ∷ n / 16777216 % 256 ∷ []

abbrev pub from_bytes : ℕ → ℕ → ℕ → ℕ → ℕ
from_bytes a b c d = a + 256 * b + 65536 * c + 16777216 * d

-- `strrchr`: the text from the last place where the character stands
abbrev pub strrchr : Text → ℕ → Option Text
strrchr [] c = none
strrchr (x ∷ s) c = elim (strrchr s c) [
  | some t ↦ some t
  | none ↦ if x == c then some (x ∷ s) else none
]

-- `basename` of `create`
abbrev pub basename : Text → Text
basename path = elim (strrchr path 47) [ some t ↦ drop 1 t | none ↦ path ]

-- The C library's `strncpy`, which fills up with zeros
abbrev pub padded_name : Text → List ℕ
padded_name s = take sizeof_name (s ++ replicate sizeof_name 0)

pub header_bytes : ℕ → List ℕ
header_bytes nfiles = to_bytes rd_magic ++ (to_bytes sizeof_header ++ to_bytes nfiles)

pub file_bytes : RdFile → List ℕ
file_bytes f = to_bytes f.hdr_size ++ (to_bytes f.start ++ (to_bytes f.size ++ f.name))

-- The error codes
abbrev pub err_filename : ℕ
err_filename = 2

abbrev pub err_oscall : ℕ
err_oscall = 3

abbrev pub err_noimage : ℕ
err_noimage = 4

abbrev pub err_hdrsize : ℕ
err_hdrsize = 5

abbrev pub err_isdir : ℕ
err_isdir = 6

-- How `create` and `extract` end: with an error code, or behind the last statement, where the
-- functions have no `return`.
pub data End : Type 0 where
  at_end : End
  error : ℕ → End

-- The fields of `fhdr` that `create` fills in
abbrev pub file_header : ℕ → ℕ → Text → RdFile
file_header pos st_size path = record {
  hdr_size = sizeof_file;
  start = (pos + sizeof_file) % 4294967296;
  size = st_size % 4294967296;
  name = padded_name (basename path);
}

module _ (host : Host) where
  -- The rest of the body of the loop in `create`, from the write of `fhdr` on: the bytes written, and
  -- the code of an error.
  pub add_file : List ℕ → RdFile → Text → List ℕ × Option ℕ
  add_file written fhdr path = elim (checked (host.write written (file_bytes fhdr))) [
    | none ↦ (written, some err_oscall)
    | some bw ↦
        let headed = written ++ take bw (file_bytes fhdr) in
        elim (host.open_source path) [
          | none ↦ (headed, some err_oscall)
          | some source ↦ elim (checked (host.sendfile headed source fhdr.size)) [
            | none ↦ (headed, some err_oscall)
            | some bc ↦ (headed ++ take bc source, none)
          ]
        ]
  ]

  -- `for(i = 0; i < nfiles; ++i)`: the bytes written and how it ends
  pub create_files : List Text → ℕ → List ℕ → List ℕ × End
  unfolding add_file
  create_files [] pos written = (written, at_end)
  create_files (path ∷ paths) pos written =
      if ltb (sizeof_name - 1) (length path)
      then (written, error err_filename)
      else elim (host.stat path) [
        | none ↦ (written, error err_oscall)
        | some (is_dir, st_size) ↦
            let fhdr = file_header pos st_size path in
            let added = add_file written fhdr path in
            let rest = create_files paths ((pos + sizeof_file + fhdr.size) % 4294967296) added.0 in
            if is_dir
            then (written, error err_isdir)
            else elim added.1 [ none ↦ rest | some code ↦ (added.0, error code) ]
      ]

  -- `create` for an image that has the bytes `old`, or is to be made anew, when `old` is empty; `none`
  -- where it cannot be opened. The file is not truncated.
  pub create : Option (List ℕ) → List Text → Option (List ℕ) × End
  unfolding create_files
  create none paths = (none, error err_oscall)
  create (some old) paths =
      let hdr = header_bytes (length paths % 4294967296) in
      elim (checked (host.write [] hdr)) [
        | none ↦ (some old, error err_oscall)
        | some bw ↦
            let made = create_files paths sizeof_header (take bw hdr) in
            (some (made.0 ++ drop (length made.0) old), made.1)
      ]

-- The files of the directory that `extract` writes to
abbrev pub Disk : Type 0
Disk = List (Text × List ℕ)

abbrev pub same_text : Text → Text → Bool
same_text [] [] = true
same_text [] (c ∷ t) = false
same_text (c ∷ s) [] = false
same_text (c ∷ s) (d ∷ t) = (c == d) && same_text s t

abbrev pub has_file : Text → Disk → Bool
has_file name [] = false
has_file name ((n, content) ∷ disk) = same_text n name || has_file name disk

-- The text in `fhdr.name`, which ends before the first zero
abbrev pub text_of : List ℕ → Text
text_of [] = []
text_of (c ∷ s) = if c == 0 then [] else c ∷ text_of s

-- A `uint32_t` of a variable, from its bytes
abbrev pub word_at : List ℕ → ℕ → ℕ
word_at var i =
    from_bytes (get_or var i 0) (get_or var (i + 1) 0) (get_or var (i + 2) 0) (get_or var (i + 3) 0)

pub file_of : List ℕ → RdFile
file_of var = record {
  hdr_size = word_at var 0;
  start = word_at var 4;
  size = word_at var 8;
  name = drop sizeof_header var;
}

module _ (host : Host) where
  -- `read` of `n` bytes at a place of the image into a variable with the bytes `junk`: the bytes of the
  -- variable, and how many were read
  pub read_into : List ℕ → ℕ → ℕ → List ℕ → Option (List ℕ × ℕ)
  read_into image at n junk = elim (checked (host.read (drop at image) n)) [
    | none ↦ none
    | some br ↦ some ((take n (take br (drop at image) ++ drop br junk), br))
  ]

  -- `if(!test)`: the file of the header is made; the directory, and the code of an error
  pub write_file : List ℕ → RdFile → Disk → Disk × Option ℕ
  write_file image fhdr disk =
      let name = text_of fhdr.name in
      let source = drop fhdr.start image in
      if has_file name disk || not (host.may_create name)
      then (disk, some err_oscall)
      else elim (checked (host.sendfile [] source fhdr.size)) [
        | none ↦ (disk ++ (name, []) ∷ [], some err_oscall)
        | some br ↦ (disk ++ (name, take br source) ∷ [], none)
      ]

  -- `while(hdr.num_files-- > 0)`: the directory, the headers that are listed, and how it ends; `junk n`
  -- is what `fhdr` holds before it is read when `n` files are left after this one.
  pub extract_files : Bool → (ℕ → List ℕ) → ℕ → List ℕ → ℕ → Disk → Disk × List RdFile × End
  unfolding read_into write_file
  extract_files test junk zero image at disk = (disk, [], at_end)
  extract_files test junk (suc n) image at disk = elim (read_into image at sizeof_file (junk n)) [
    | none ↦ (disk, [], error err_oscall)
    | some (var, br) ↦
        let fhdr = file_of var in
        let out = if test then (disk, none) else write_file image fhdr disk in
        let next = (fhdr.start + fhdr.size) % 4294967296 in
        let rest = extract_files test junk n image next out.0 in
        if not (fhdr.hdr_size == sizeof_file) then (disk, [], error err_hdrsize) else elim out.1 [
          | some code ↦ (out.0, fhdr ∷ [], error code)
          | none ↦
              if next == 4294967295
              then (out.0, fhdr ∷ [], error err_oscall)
              else (rest.0, fhdr ∷ rest.1, rest.2)
        ]
  ]

  -- `extract` of an image, which is `none` where it cannot be opened
  pub extract : Bool → (ℕ → List ℕ) → List ℕ → Option (List ℕ) → Disk → Disk × List RdFile × End
  unfolding extract_files
  extract test junk old none disk = (disk, [], error err_oscall)
  extract test junk old (some image) disk = elim (read_into image 0 sizeof_header old) [
    | none ↦ (disk, [], error err_oscall)
    | some (hdr, br) ↦
        let files = extract_files test junk (word_at hdr 8) image br disk in
        if not (word_at hdr 0 == rd_magic)
        then (disk, [], error err_noimage)
        else if not (word_at hdr 4 == sizeof_header)
        then (disk, [], error err_hdrsize)
        else files
  ]

-- What `main` calls: `t`, `c` and `x` are whether the options have the letters.
pub data RunMode : Type 0 where
  usage creates : RunMode
  extracts : Bool → RunMode

abbrev pub has_letter : Text → ℕ → Bool
has_letter [] c = false
has_letter (x ∷ s) c = (x == c) || has_letter s c

abbrev pub one_if : Bool → ℕ
one_if true = 1
one_if false = 0

-- `main` for `argc` arguments
pub mode_of : ℕ → Text → RunMode
mode_of argc options =
    let t = has_letter options 116 in
    let c = has_letter options 99 in
    let x = has_letter options 120 in
    if ltb argc 3
    then usage
    else if ltb 1 (one_if t + one_if c + one_if x)
    then usage
    else if c
    then if ltb argc 4 then usage else creates
    else extracts t
