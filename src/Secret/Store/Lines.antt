-- ===== src/Secret/Store/Lines.antt =====
-- The lines that `Set` and `Delete` write are the lines that the scanner reads back.
use ateam.Prelude.{
  ℕ, false, List, [], ◌∷◌, ◌++◌, map, ◌≡◌, refl, ap, ◌∙◌, arith, leb, ◌==◌, append_assoc, Bytes,
  split, join, length, any, All,
}
use ateam.Secret.Store.{ok, scan_lines, drop_cr, drop_last_empty, max_scan_token_size, render}

-- A line that survives being written and read: no newline, no carriage return at its end, and
-- shorter than the scanner's buffer.
pub record IsPlain (line : Bytes) : Type 0 where
  pub one_line : any (λ c. c == b'\n') line ≡ false
  pub no_cr : drop_cr line ≡ line
  pub fits : leb max_scan_token_size (length line) ≡ false

split-append :
    (c : ℕ) (l rest : Bytes)
    → any (λ x. x == c) l ≡ false
    → split c (l ++ c ∷ rest) ≡ l ∷ split c rest
unfolding split
split-append c [] rest h = ground arith
split-append c (x ∷ l) rest h = ground (arith, split-append c l rest)

-- Every line with its newline.
abbrev ended : List Bytes → Bytes
ended [] = []
ended (l ∷ ls) = l ++ b'\n' ∷ ended ls

split-ended : (ls : List Bytes) → All IsPlain ls → split b'\n' (ended ls) ≡ ls ++ [] ∷ []
unfolding split
split-ended [] h = refl
split-ended (l ∷ ls) h =
    split-append b'\n' l (ended ls) h.0.one_line ∙ ap (◌∷◌ l) (split-ended ls h.1)

drop_last_empty-append : (ls : List Bytes) → drop_last_empty (ls ++ [] ∷ []) ≡ ls
unfolding drop_last_empty
drop_last_empty-append [] = refl
drop_last_empty-append (l ∷ []) = refl
drop_last_empty-append (l ∷ (m ∷ ls)) = ap (◌∷◌ l) (drop_last_empty-append (m ∷ ls))

render-ended : (l : Bytes) (ls : List Bytes) → render (l ∷ ls) ≡ ended (l ∷ ls)
unfolding render join
render-ended l [] = refl
render-ended l (m ∷ ls) = append_assoc l _ _ ∙ ap (λ t. l ++ b'\n' ∷ t) (render-ended m ls)

none_long :
    (ls : List Bytes) → All IsPlain ls → any (λ l. leb max_scan_token_size (length l)) ls ≡ false
none_long [] h = refl
none_long (l ∷ ls) h = rw h.0.fits (none_long ls h.1)

map-drop_cr : (ls : List Bytes) → All IsPlain ls → map drop_cr ls ≡ ls
map-drop_cr [] h = refl
map-drop_cr (l ∷ ls) h = rw (h.0.no_cr, map-drop_cr ls h.1)

scan_lines-ended : (ls : List Bytes) → All IsPlain ls → scan_lines (ended ls) ≡ ok ls
unfolding scan_lines
scan_lines-ended ls h =
    rw (split-ended ls h, drop_last_empty-append ls, none_long ls h, map-drop_cr ls h)

-- What is read back: the lines written, but one empty line for no line at all.
abbrev pub as_read : List Bytes → List Bytes
as_read [] = [] ∷ []
as_read (l ∷ ls) = l ∷ ls

pub scan_lines-render :
    (ls : List Bytes) → All IsPlain ls → scan_lines (render ls) ≡ ok (as_read ls)
scan_lines-render [] h = unfold scan_lines render join split drop_last_empty drop_cr in refl
scan_lines-render (l ∷ ls) h = rw (render-ended l ls) (scan_lines-ended (l ∷ ls) h)
