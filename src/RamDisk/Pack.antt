-- ===== src/RamDisk/Pack.antt =====
-- The image that `create` of tools/apps/rd/rd.c makes.
use mathlib.Core.List.{append_assoc, append-nil}
use tachyon.Prelude.{
  ℕ, ◌+◌, ◌-◌, ◌%◌, ◌≤◌, ◌<◌, ◌≡◌, refl, sym, ap, ◌∙◌, false, Option, none, some, List, [], ◌∷◌,
  ◌++◌, arith, ge→ltb, ne→eqb, length, take, All,
}
use tachyon.Text.{Text, IsText}
use tachyon.RamDisk.{
  RdFile, sizeof_file, sizeof_name, Host, checked, file_bytes, at_end, file_header, add_file,
  create_files,
}
use tachyon.RamDisk.Bytes.{take-length, length-file_bytes}

-- The most that one call of `sendfile` copies
abbrev pub send_limit : ℕ
send_limit = 2147479552

-- The operating system when files have room and can be read: `write` writes all its bytes, `read`
-- reads what it is asked for up to the end of the file, and so does `sendfile` up to its limit.
abbrev pub Works : Host → Type 0
Works host =
    ((written bs : List ℕ) → host.write written bs ≡ some (length bs))
    × ((left : List ℕ) (n : ℕ) → host.read left n ≡ some (length (take n left)))
    × ((written left : List ℕ) (n : ℕ)
        → n ≤ send_limit
        → host.sendfile written left n ≡ some (length (take n left)))

-- A path and the content of the file there, which is not a directory
abbrev pub Entry : Type 0
Entry = Text × List ℕ

abbrev pub Packable : Host → Entry → Type 0
Packable host e =
    (length e.0 < sizeof_name)
    × IsText e.0
    × (host.stat e.0 ≡ some (false, length e.1))
    × (host.open_source e.0 ≡ some e.1)

abbrev pub paths : List Entry → List Text
paths [] = []
paths (e ∷ es) = e.0 ∷ paths es

-- The bytes that the entries take behind a header, from the place `pos` of the image on
abbrev pub body : ℕ → List Entry → List ℕ
body pos [] = []
body pos (e ∷ es) =
    file_bytes (file_header pos (length e.1) e.0)
    ++ (e.1 ++ body (pos + sizeof_file + length e.1) es)

abbrev pub total : List Entry → ℕ
total [] = 0
total (e ∷ es) = sizeof_file + length e.1 + total es

pub checked-small : (n : ℕ) → n < 4294967295 → checked (some n) ≡ some n
checked-small n h = rw (ne→eqb (n % 4294967296) 4294967295 (omega arith)) refl

pub take_all : (s : List ℕ) → take (length s) s ≡ s
take_all s = ap (take (length s)) (sym (append-nil s)) ∙ take-length s []

add_file-written :
    (host : Host) (written : List ℕ) (fhdr : RdFile) (e : Entry)
    → Works host
    → host.open_source e.0 ≡ some e.1
    → fhdr.size ≡ length e.1
    → length e.1 ≤ send_limit
    → length (file_bytes fhdr) ≡ sizeof_file
    → add_file host written fhdr e.0 ≡ (written ++ file_bytes fhdr ++ e.1, none)
unfolding add_file
add_file-written host written fhdr e (writes, reads, sends) opened size small long =
    let wrote : checked (host.write written (file_bytes fhdr)) ≡ some (length (file_bytes fhdr)) =
      ap checked (writes written (file_bytes fhdr))
      ∙ checked-small (length (file_bytes fhdr)) (omega arith) in
    let headed = written ++ take (length (file_bytes fhdr)) (file_bytes fhdr) in
    rw (add_file, wrote, opened, sent headed, take_all (file_bytes fhdr), take_all e.1) refl
  where
    sent : (w : List ℕ) → checked (host.sendfile w e.1 fhdr.size) ≡ some (length e.1)
    sent w =
        ap (λ (n : ℕ). checked (host.sendfile w e.1 n)) size
        ∙ ap checked
            (sends w e.1 (length e.1) small ∙ ap (λ (l : List ℕ). some (length l)) (take_all e.1))
        ∙ checked-small (length e.1) (omega arith)

pub small_mod : (n : ℕ) → n < 4294967296 → n % 4294967296 ≡ n
small_mod n h = omega arith

pub create_files-body :
    (host : Host) (es : List Entry) (pos : ℕ) (written : List ℕ)
    → Works host
    → All (Packable host) es
    → pos + total es ≤ send_limit
    → create_files host (paths es) pos written ≡ (written ++ body pos es, at_end)
unfolding create_files
create_files-body host [] pos written works all bound =
    ap (λ (l : List ℕ). (l, at_end)) (sym (append-nil written))
create_files-body host (e ∷ es) pos written works ((short, is_text, known, opened), all) bound =
    let size = small_mod (length e.1) (omega (arith, bound)) in
    let place : (pos + sizeof_file + length e.1 % 4294967296) % 4294967296
        ≡ pos + sizeof_file + length e.1 =
      omega (arith, bound) in
    let fhdr = file_header pos (length e.1) e.0 in
    let added =
      add_file-written host written fhdr e works opened size (omega (arith, bound))
        (length-file_bytes pos (length e.1) e.0) in
    rw
      (
        ge→ltb (sizeof_name - 1) (length e.0) (omega (arith, short)),
        known,
        ap (λ (p : List ℕ × Option ℕ). p.1) added,
        ap (λ (p : List ℕ × Option ℕ). p.0) added,
        place,
        create_files-body host es (pos + sizeof_file + length e.1)
            (written ++ file_bytes fhdr ++ e.1) works all (omega (arith, bound)),
        append_assoc (written ++ file_bytes fhdr) e.1 (body (pos + sizeof_file + length e.1) es),
        append_assoc written (file_bytes fhdr) (e.1 ++ body (pos + sizeof_file + length e.1) es),
      )
      refl
