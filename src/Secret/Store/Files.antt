-- ===== src/Secret/Store/Files.antt =====
-- `Get` after `Set` and after `Delete`, on files.
use ateam.Prelude.{
  trim_space, true, false, not, none, some, List, [], ◌∷◌, ◌≡◌, ◌≢◌, ◌⊎◌, refl, sym, ap, ◌∙◌, arith,
  ◌==◌, leb, if◌then◌else◌, Bytes, eq, eq_iff, is_empty, All, Bool-cases, inl, inr,
}
use ateam.Prelude.Dict.{lookup}
use ateam.Secret.Store.{
  File, content, ok, err, not_exist, Writes, read_lines, parse_line, key_of, get, set, delete,
  render, set_lines, delete_lines,
}
use ateam.Secret.Store.Lines.{IsPlain, as_read, scan_lines-render}
use ateam.Secret.Store.Entries.{
  last_value, lines_of, IsStorable, lookup-read_entries, last_value-set_lines,
  last_value-set_lines_ne, last_value-delete_lines, delete_lines_found, set_lines-IsPlain,
  delete_lines-IsPlain, last_value-none,
}

lookup-nil : (name : Bytes) → lookup {V = Bytes} name [] ≡ none
unfolding lookup
lookup-nil name = refl

-- The file holds these lines; a file that does not exist holds none.
abbrev pub Holds : File → List Bytes → Type 0
Holds f lines = (read_lines f ≡ ok lines) ⊎ ((read_lines f ≡ err not_exist) × (lines ≡ []))

abbrev pub Writable : Writes → Type 0
Writable w = (w.mkdir ≡ none) × (w.write ≡ none)

pub get-last_value :
    (f : File) (name : Bytes) (lines : List Bytes)
    → is_empty name ≡ false
    → Holds f lines
    → get f name ≡ ok (last_value name lines)
unfolding get
get-last_value f name lines ne (inl h) =
    ground (arith, lookup-read_entries name lines [] ne, lookup-nil name)
get-last_value f name lines ne (inr (m, e)) = rw e (ground arith)

key_of-nil : key_of [] ≡ []
unfolding parse_line trim_space
key_of-nil = refl

last_value-as_read :
    (name : Bytes) (lines : List Bytes)
    → is_empty name ≡ false
    → last_value name (as_read lines) ≡ last_value name lines
last_value-as_read name [] ne = ground (arith, eq_iff [] name, key_of-nil)
last_value-as_read name (l ∷ lines) ne = refl

get-render :
    (name : Bytes) (lines : List Bytes)
    → is_empty name ≡ false
    → All IsPlain lines
    → get (content (render lines)) name ≡ ok (last_value name lines)
get-render name lines ne p =
    get-last_value (content (render lines)) name (as_read lines) ne
      (inl (unfold read_lines in scan_lines-render lines p))
    ∙ ap (λ v. ok v) (last_value-as_read name lines ne)

set-render :
    (w : Writes) (f : File) (name value : Bytes) (lines : List Bytes)
    → Writable w
    → Holds f lines
    → set w f name value ≡ (content (render (set_lines name value lines)), ok tt)
unfolding set
set-render w f name value lines (wm, ww) (inl h) = rw (wm, h, ww, set)
set-render w f name value lines (wm, ww) (inr (m, e)) = rw (wm, m, ww, e, set)

-- Where the directory can be made and the file be written, on a file (or none) of plain lines, each
-- without a newline, short enough for the scanner and without a carriage return at its end, and for
-- a name and a value that fit a line: the name not empty, without `=` and without `#` at its start,
-- the line plain, and nothing to trim off the name or the value. Then `Set` reports success; if the
-- file holds the key on one line at most, `Get` after it returns the value; if the key stands on more
-- lines, `Set` rewrites the first and `Get` reads the last, so that `Get` returns what it returned
-- before.
pub get-set :
    (w : Writes) (f : File) (name value : Bytes) (lines : List Bytes)
    → Writable w
    → Holds f lines
    → All IsPlain lines
    → IsStorable name value
    → ((set w f name value).1 ≡ ok tt)
      × (get (set w f name value).0 name
          ≡ (if leb (lines_of name lines) 1 then ok (some value) else get f name))
get-set w f name value lines ww h p s = ground (
  arith,
  set-render w f name value lines ww h,
  get-render name _ s.name_ne (set_lines-IsPlain name value lines s.plain p),
  last_value-set_lines name value s lines,
  get-last_value f name lines s.name_ne h,
)

-- Where the directory can be made and the file be written, on a file (or none) of plain lines, and
-- for a name and a value that fit a line (the name not empty, without `=` and without `#` at its
-- start, the line plain, nothing to trim), `Set` leaves what `Get` returns for every other key that
-- is not empty.
pub get-set_ne :
    (w : Writes) (f : File) (name value other : Bytes) (lines : List Bytes)
    → Writable w
    → Holds f lines
    → All IsPlain lines
    → IsStorable name value
    → other ≢ name
    → is_empty other ≡ false
    → get (set w f name value).0 other ≡ get f other
get-set_ne w f name value other lines ww h p s ne oe = rw (set-render w f name value lines ww h) (
    get-render other _ oe (set_lines-IsPlain name value lines s.plain p)
    ∙ ap (λ v. ok v) (last_value-set_lines_ne name value s other lines ne)
    ∙ sym (get-last_value f other lines oe h))

delete_absent :
    (w : Writes) (f : File) (name : Bytes) (lines : List Bytes)
    → Holds f lines
    → (delete_lines name lines).1 ≡ false
    → delete w f name ≡ (f, (false, none))
unfolding delete
delete_absent w f name lines (inl h) absent = rw (h, absent, delete)
delete_absent w f name lines (inr (m, e)) absent = rw (m, delete)

delete-render :
    (w : Writes) (f : File) (name : Bytes) (lines : List Bytes)
    → Writable w
    → Holds f lines
    → (delete_lines name lines).1 ≡ true
    → delete w f name ≡ (content (render (delete_lines name lines).0), (true, none))
unfolding delete
delete-render w f name lines (wm, ww) (inl h) found = rw (h, found, ww, delete)
delete-render w f name lines (wm, ww) (inr (m, e)) found =
    absurd (unfold delete_lines in ground arith)

-- Where the directory can be made and the file be written, and the file is missing or holds plain lines (without a newline, short enough
-- for the scanner, without a carriage return at their end): after `Delete` the key has no value,
-- every other key that is not empty has the value that it had, and `Delete` returns no error and
-- whether some line held the key.
pub get-delete :
    (w : Writes) (f : File) (name other : Bytes) (lines : List Bytes)
    → Writable w
    → Holds f lines
    → All IsPlain lines
    → is_empty other ≡ false
    → ((delete w f name).1 ≡ (not (lines_of name lines == 0), none))
      × (get (delete w f name).0 other ≡ (if eq other name then ok none else get f other))
get-delete w f name other lines ww h p oe =
    let kept = get-last_value f other lines oe h in
    let gone = last_value-delete_lines name other lines in
    elim (Bool-cases (lines_of name lines == 0)) [
      | inl none_there ↦
          rw
            (
              delete_absent w f name lines h (ground (arith, delete_lines_found name lines)),
              none_there,
            )
            (refl, ground (arith, kept, eq_iff other name, last_value-none name lines))
      | inr some_there ↦
          rw
            (
              delete-render w f name lines ww h (ground (arith, delete_lines_found name lines)),
              some_there,
            )
            (
              refl,
              ground (arith, get-render other _ oe (delete_lines-IsPlain name lines p), kept, gone),
            )
    ]
