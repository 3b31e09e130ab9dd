-- ===== src/Secret/Store.antt =====
-- internal/secret/store.go: the file backend, a file of KEY=VALUE lines.
pub mod Entries
pub mod Files
pub mod Lines
use ateam.Prelude.{
  ℕ, ◌+◌, Bool, true, false, not, ◌&&◌, ◌||◌, Option, none, some, List, [], ◌∷◌, ◌++◌, map, leb,
  ◌==◌, if◌then◌else◌, Bytes, codes, eq, is_empty, has_prefix, has_suffix, split, cut, join,
  trim_space, length, take, drop, any, reverse,
}
use ateam.Prelude.Dict.{Dict, lookup, insert}

-- What `os.Open` and the scanner meet at a path.
pub data File : Type 0 where
  missing : File
  unreadable : Bytes → File
  content : Bytes → File

pub data IoError : Type 0 where
  not_exist : IoError
  too_long : IoError
  failed : Bytes → IoError

pub data Io {ℓ} (A : Type ℓ) : Type ℓ where
  ok : A → Io A
  err : IoError → Io A

-- `bufio.ScanLines` takes one carriage return off the end of a line.
unfoldable pub drop_cr : Bytes → Bytes
drop_cr [] = []
drop_cr (c ∷ []) = if c == 13 then [] else c ∷ []
drop_cr (c ∷ (d ∷ s)) = c ∷ drop_cr (d ∷ s)

-- The text behind the last newline is a line unless it is empty.
drop_last_empty : List Bytes → List Bytes
drop_last_empty [] = []
drop_last_empty (l ∷ []) = if is_empty l then [] else l ∷ []
drop_last_empty (l ∷ (m ∷ ls)) = l ∷ drop_last_empty (m ∷ ls)

-- A line that fills the scanner's buffer is `bufio.ErrTooLong`.
abbrev max_scan_token_size : ℕ
max_scan_token_size = 65536

unfoldable pub scan_lines : Bytes → Io (List Bytes)
unfolding drop_cr drop_last_empty
scan_lines s =
    let ls = drop_last_empty (split b'\n' s) in
    if any (λ l. leb max_scan_token_size (length l)) ls then err too_long else ok (map drop_cr ls)

unfoldable pub read_lines : File → Io (List Bytes)
unfolding scan_lines
read_lines missing = err not_exist
read_lines (unreadable why) = err (failed why)
read_lines (content s) = scan_lines s

-- The text written by `Set` and `Delete`.
unfoldable pub render : List Bytes → Bytes
render ls = join (b'\n' ∷ []) ls ++ b'\n' ∷ []

unfoldable pub parse_line : Bytes → Bytes × Bytes
parse_line line =
    let t = trim_space line in
    if is_empty t || has_prefix t (codes "#")
    then ([], [])
    else elim (cut b'=' t) [ none ↦ ([], []) | some (k, v) ↦ (trim_space k, trim_space v) ]

abbrev pub key_of : Bytes → Bytes
key_of line = (parse_line line).0

abbrev pub value_of : Bytes → Bytes
value_of line = (parse_line line).1

-- The loop of `readAll`, on the map built so far.
unfoldable pub read_entries : List Bytes → Dict Bytes → Dict Bytes
read_entries [] m = m
read_entries (line ∷ lines) m =
    read_entries lines
      (if not (is_empty (key_of line)) then insert (key_of line) (value_of line) m else m)

unfoldable pub read_all : File → Io (Dict Bytes)
read_all f = elim (read_lines f) [ ok lines ↦ ok (read_entries lines []) | err e ↦ err e ]

unfoldable pub get : File → Bytes → Io (Option Bytes)
unfolding read_all
get f name = elim (read_all f) [
  | ok entries ↦ ok (lookup name entries)
  | err not_exist ↦ ok none
  | err e ↦ err e
]

abbrev pub assignment : Bytes → Bytes → Bytes
assignment name value = name ++ (codes "=" ++ value)

-- The loop of `Set`: the first line of the key is replaced; the flag is `found`.
unfoldable pub replace_first : Bytes → Bytes → List Bytes → List Bytes × Bool
replace_first name value [] = ([], false)
replace_first name value (line ∷ lines) =
    let (rest, found) = replace_first name value lines in
    if eq (key_of line) name then (assignment name value ∷ lines, true) else (line ∷ rest, found)

unfoldable pub set_lines : Bytes → Bytes → List Bytes → List Bytes
unfolding replace_first
set_lines name value lines =
    let (replaced, found) = replace_first name value lines in
    if not found then replaced ++ assignment name value ∷ [] else replaced

-- The loop of `Delete`.
unfoldable pub delete_lines : Bytes → List Bytes → List Bytes × Bool
delete_lines name [] = ([], false)
delete_lines name (line ∷ lines) =
    let (rest, found) = delete_lines name lines in
    if eq (key_of line) name then (rest, true) else (line ∷ rest, found)

-- How `os.MkdirAll` and `os.WriteFile` end: an error is the message, for a failed write with the
-- file that it leaves behind.
pub record Writes : Type 0 where
  pub mkdir : Option Bytes
  pub write : Option (Bytes × File)

-- `Set` and `Delete` return the file as it is afterwards.
write_file : Writes → Bytes → File × Io (Unit {0})
write_file w s = elim w.write [
  | none ↦ (content s, ok tt)
  | some (why, left) ↦ (left, err (failed why))
]

abbrev pub error_of : Io (Unit {0}) → Option IoError
error_of (ok _) = none
error_of (err e) = some e

unfoldable pub set : Writes → File → Bytes → Bytes → File × Io (Unit {0})
unfolding write_file
set w f name value = elim w.mkdir [
  | some why ↦ (f, err (failed why))
  | none ↦ elim (read_lines f) [
    | ok lines ↦ write_file w (render (set_lines name value lines))
    | err not_exist ↦ write_file w (render (set_lines name value []))
    | err e ↦ (f, err e)
  ]
]

-- `Delete`, whether it found the key and its error: both, if the write fails.
unfoldable pub delete : Writes → File → Bytes → File × (Bool × Option IoError)
unfolding write_file
delete w f name = elim (read_lines f) [
  | err not_exist ↦ (f, (false, none))
  | err e ↦ (f, (false, some e))
  | ok lines ↦
      let (out, found) = delete_lines name lines in
      if not found
      then (f, (false, none))
      else let (g, written) = write_file w (render out) in (g, (true, error_of written))
]

unfoldable pub keychain_account : Bytes → Bytes → Bytes → Bytes
keychain_account scope keychain_key name =
    if not (is_empty keychain_key)
    then scope ++ (codes "/" ++ (keychain_key ++ (codes "/" ++ name)))
    else scope ++ (codes "/" ++ name)

-- `List`: the keys of the map.
unfoldable pub list : File → Io (List Bytes)
unfolding read_all
list f = elim (read_all f) [
  | ok entries ↦ ok (map (λ e. e.0) entries)
  | err not_exist ↦ ok []
  | err e ↦ err e
]
