-- ===== src/RamDisk/Unpack.antt =====
-- What `extract` of tools/apps/rd/rd.c takes out of an image that `create` made.
use mathlib.Core.List.{append_assoc}
use tachyon.Prelude.{
  ℕ, suc, ◌+◌, ◌%◌, ◌≤◌, ◌<◌, ◌≡◌, refl, sym, ap, ap₂, ◌∙◌, subst, Bool, true, false, Option, none,
  some, List, [], ◌∷◌, ◌++◌, arith, ◌==◌, if◌then◌else◌, eq→eqb, ne→eqb, length, drop,
  length-append, All,
}
use tachyon.Text.{Text}
use tachyon.RamDisk.{
  RdFile, sizeof_file, Host, checked, basename, file_bytes, End, at_end, file_header, Disk,
  has_file, text_of, file_of, read_into, write_file, extract_files,
}
use tachyon.RamDisk.Bytes.{
  drop-length, take-length, Fits, file_of-file_bytes, text_of-padded_name, basename-IsText,
  length-file_bytes,
}
use tachyon.RamDisk.Pack.{send_limit, Works, Entry, Packable, body, total, checked-small, small_mod}

-- The files under their names in the image, and their headers from the place `pos` on
abbrev pub named : List Entry → Disk
named [] = []
named (e ∷ es) = (basename e.0, e.1) ∷ named es

abbrev pub headers : ℕ → List Entry → List RdFile
headers pos [] = []
headers pos (e ∷ es) =
    file_header pos (length e.1) e.0 ∷ headers (pos + sizeof_file + length e.1) es

-- The directory behind one file, and behind them all: testing leaves it alone.
abbrev pub disk_next : Bool → Disk → Entry → Disk
disk_next true disk e = disk
disk_next false disk e = disk ++ (basename e.0, e.1) ∷ []

abbrev pub disk_after : Bool → Disk → List Entry → Disk
disk_after test disk [] = disk
disk_after test disk (e ∷ es) = disk_after test (disk_next test disk e) es

-- Unless this is a test, the names are new in the directory when it is their turn, and files can be
-- made there with them.
abbrev pub Placed : Host → Bool → Disk → Entry → Type 0
Placed host true disk e = Unit
Placed host false disk e =
    (has_file (basename e.0) disk ≡ false) × (host.may_create (basename e.0) ≡ true)

abbrev pub Fresh : Host → Bool → Disk → List Entry → Type 0
Fresh host test disk [] = Unit
Fresh host test disk (e ∷ es) = Placed host test disk e × Fresh host test (disk_next test disk e) es

pub read_into-whole :
    (host : Host) (before bs after junk : List ℕ)
    → Works host
    → length bs < 4294967295
    → read_into host (before ++ (bs ++ after)) (length before) (length bs) junk
      ≡ some (bs, length bs)
unfolding read_into
read_into-whole host before bs after junk (writes, reads, sends) small =
    rw
      (
        read_into,
        drop-length before (bs ++ after),
        read_all,
        drop-length before (bs ++ after),
        take-length bs after,
        take-length bs (drop (length bs) junk),
      )
      refl
  where
    read_all : checked (host.read (bs ++ after) (length bs)) ≡ some (length bs)
    read_all =
        ap checked (
          reads (bs ++ after) (length bs)
          ∙ ap (λ (l : List ℕ). some (length l)) (take-length bs after))
        ∙ checked-small (length bs) small

file_header-Fits : (pos size : ℕ) (path : Text) → Fits (file_header pos size path)
file_header-Fits pos size path = (omega arith, omega arith, omega arith)

write_file-added :
    (host : Host) (image before content after : List ℕ) (fhdr : RdFile) (name : Text) (disk : Disk)
    → Works host
    → image ≡ before ++ (content ++ after)
    → fhdr.start ≡ length before
    → fhdr.size ≡ length content
    → length content ≤ send_limit
    → text_of fhdr.name ≡ name
    → has_file name disk ≡ false
    → host.may_create name ≡ true
    → write_file host image fhdr disk ≡ (disk ++ (name, content) ∷ [], none)
unfolding write_file
write_file-added host image before content after fhdr name disk (writes, reads, sends) e start size
      small called new may =
    let free = ap (λ (n : Text). has_file n disk) called ∙ new in
    let allowed = ap host.may_create called ∙ may in
    rw (write_file, free, allowed, sent, source, take-length content after, called) refl
  where
    source : drop fhdr.start image ≡ content ++ after
    source = ap₂ (λ (n : ℕ) (l : List ℕ). drop n l) start e ∙ drop-length before (content ++ after)

    sent : checked (host.sendfile [] (drop fhdr.start image) fhdr.size) ≡ some (length content)
    sent =
        ap₂ (λ (l : List ℕ) (n : ℕ). checked (host.sendfile [] l n)) source size
        ∙ ap checked (
            sends [] (content ++ after) (length content) small
            ∙ ap (λ (l : List ℕ). some (length l)) (take-length content after))
        ∙ checked-small (length content) (omega arith)

-- One file, when its header is read, is of the right size, and the file can be made.
step_on :
    (host : Host) (test : Bool) (junk : ℕ → List ℕ) (n at br place : ℕ) (image var : List ℕ)
    (disk disk' : Disk)
    → read_into host image at sizeof_file (junk n) ≡ some (var, br)
    → ((file_of var).hdr_size == sizeof_file) ≡ true
    → (if test then (disk, none) else write_file host image (file_of var) disk) ≡ (disk', none)
    → ((file_of var).start + (file_of var).size) % 4294967296 ≡ place
    → place < 4294967295
    → extract_files host test junk (suc n) image at disk ≡ (
        let rest = extract_files host test junk n image place disk' in
        (rest.0, file_of var ∷ rest.1, rest.2))
unfolding extract_files
step_on host test junk n at br place image var disk disk' got sized made goes small =
    rw
      (
        extract_files,
        got,
        sized,
        ap (λ (p : Disk × Option ℕ). p.1) made,
        goes,
        ne→eqb place 4294967295 (omega arith),
        ap (λ (p : Disk × Option ℕ). p.0) made,
      )
      refl

extract_files-step :
    (host : Host) (test : Bool) (junk : ℕ → List ℕ) (n at br place : ℕ) (image var : List ℕ)
    (disk disk' : Disk) (fhdr : RdFile) (late : Disk × List RdFile × End)
    → read_into host image at sizeof_file (junk n) ≡ some (var, br)
    → file_of var ≡ fhdr
    → fhdr.hdr_size ≡ sizeof_file
    → (if test then (disk, none) else write_file host image fhdr disk) ≡ (disk', none)
    → (fhdr.start + fhdr.size) % 4294967296 ≡ place
    → place < 4294967295
    → extract_files host test junk n image place disk' ≡ late
    → extract_files host test junk (suc n) image at disk ≡ (late.0, fhdr ∷ late.1, late.2)
extract_files-step host test junk n at br place image var disk disk' fhdr late got parsed sized made
      goes small last =
    step_on host test junk n at br place image var disk disk' got
      (eq→eqb (file_of var).hdr_size sizeof_file (ap (λ (f : RdFile). f.hdr_size) parsed ∙ sized))
      (ap (λ (f : RdFile). if test then (disk, none) else write_file host image f disk) parsed
        ∙ made)
      (ap (λ (f : RdFile). (f.start + f.size) % 4294967296) parsed ∙ goes) small
    ∙ ap₂ (λ (f : RdFile) (l : Disk × List RdFile × End). (l.0, f ∷ l.1, l.2)) parsed last

entry_image :
    (before fb content rest after : List ℕ)
    → before ++ ((fb ++ (content ++ rest)) ++ after)
      ≡ (before ++ fb) ++ (content ++ (rest ++ after))
entry_image before fb content rest after =
    ap (◌++◌ before)
      (append_assoc fb (content ++ rest) after ∙ ap (◌++◌ fb) (append_assoc content rest after))
    ∙ sym (append_assoc before fb (content ++ (rest ++ after)))

abbrev add_or_not : Host → Bool → List ℕ → RdFile → Disk → Disk × Option ℕ
add_or_not host test image fhdr disk =
    if test then (disk, none) else write_file host image fhdr disk

entry_made :
    (host : Host) (test : Bool) (image before after : List ℕ) (fhdr : RdFile) (e : Entry)
    (disk : Disk)
    → Works host
    → image ≡ before ++ (e.1 ++ after)
    → fhdr.start ≡ length before
    → fhdr.size ≡ length e.1
    → length e.1 ≤ send_limit
    → text_of fhdr.name ≡ basename e.0
    → Placed host test disk e
    → add_or_not host test image fhdr disk ≡ (disk_next test disk e, none)
entry_made host true image before after fhdr e disk works at start size small called placed = refl
entry_made host false image before after fhdr e disk works at start size small called (new, may) =
    write_file-added host image before e.1 after fhdr (basename e.0) disk works at start size small
      called new may

header_read :
    (host : Host) (pos : ℕ) (image before fb after junk : List ℕ)
    → Works host
    → pos ≡ length before
    → image ≡ before ++ (fb ++ after)
    → length fb ≡ sizeof_file
    → read_into host image pos sizeof_file junk ≡ some (fb, sizeof_file)
header_read host pos image before fb after junk works at e long =
    subst (λ (n : ℕ). read_into host image pos n junk ≡ some (fb, n)) long
      (ap₂ (λ (im : List ℕ) (p : ℕ). read_into host im p (length fb) junk) e at
        ∙ read_into-whole host before fb after junk works (omega (arith, long)))

pub extract_files-entries :
    (host : Host) (test : Bool) (junk : ℕ → List ℕ) (es : List Entry) (pos : ℕ)
    (image before after : List ℕ) (disk : Disk)
    → Works host
    → All (Packable host) es
    → pos ≡ length before
    → pos + total es ≤ send_limit
    → image ≡ before ++ (body pos es ++ after)
    → Fresh host test disk es
    → extract_files host test junk (length es) image pos disk
      ≡ (disk_after test disk es, headers pos es, at_end)
unfolding extract_files
extract_files-entries host test junk [] pos image before after disk works all at bound e fresh =
    refl
extract_files-entries host test junk (x ∷ es) pos image before after disk works (ok, all) at bound e
      (placed, fresh) =
    let fhdr = file_header pos (length x.1) x.0 in
    let fb = file_bytes fhdr in
    let pos' = pos + sizeof_file + length x.1 in
    let long = length-file_bytes pos (length x.1) x.0 in
    let headed = length-append before fb in
    let parts = e ∙ entry_image before fb x.1 (body pos' es) after in
    let named = basename-IsText x.0 ok.1 in
    let got : read_into host image pos sizeof_file (junk (length es)) ≡ some (fb, sizeof_file) =
      header_read host pos image before fb (x.1 ++ (body pos' es ++ after)) (junk (length es)) works
        at (parts ∙ append_assoc before fb (x.1 ++ (body pos' es ++ after))) long in
    extract_files-step host test junk (length es) pos sizeof_file pos' image fb disk
      (disk_next test disk x) fhdr
      (disk_after test (disk_next test disk x) es, headers pos' es, at_end) got
      (file_of-file_bytes fhdr (file_header-Fits pos (length x.1) x.0)) refl
      (entry_made host test image (before ++ fb) (body pos' es ++ after) fhdr x disk works parts
        (omega (arith, at, long, headed, bound)) (small_mod (length x.1) (omega (arith, bound)))
        (omega (arith, bound))
        (text_of-padded_name (basename x.0) named.0 (omega (arith, named.1, ok.0))) placed)
      (omega (arith, bound)) (omega (arith, bound))
      (extract_files-entries host test junk es pos' image ((before ++ fb) ++ x.1) after
        (disk_next test disk x) works all
        (omega (arith, at, long, length-append (before ++ fb) x.1, headed)) (omega (arith, bound))
        (parts ∙ sym (append_assoc (before ++ fb) x.1 (body pos' es ++ after))) fresh)
