-- ===== src/Tests/Tails.antt =====
-- internal/runner/progress_scan.go on a file that grows between two rounds, of which the first one
-- reads a part only.
use ateam.Prelude.{ℕ, true, some, [], ◌∷◌, ◌++◌, ◌≡◌, refl, Bytes, codes, length}
use ateam.Runner.Tail.{View, Reading, fresh, split_lines, new_bytes, read_new_lines}
use ateam.Runner.Tail.Chunks.{Polled, begin, poll, read_new_lines-split}

abbrev view : Bytes → ℕ → View
view content reads = record {
  opens = true;
  size = some (length content);
  seeks = true;
  content = content;
  reads = reads;
}

abbrev early : View
early = view (codes "ab\ncd") 4

abbrev late : View
late = view (codes "ab\ncd\nef") 99

abbrev behind_early : Reading
behind_early = (read_new_lines early fresh).1

two-polled :
    Polled
      (codes "ab\ncd\nef")
      (([] ++ new_bytes early 0) ++ new_bytes late behind_early.offset)
      (read_new_lines late behind_early).1
      (([] ++ (read_new_lines early fresh).0) ++ (read_new_lines late behind_early).0)
two-polled =
    poll (codes "ab\ncd") ([] ++ new_bytes early 0) behind_early
      ([] ++ (read_new_lines early fresh).0) late (codes "\nef")
      (poll [] [] fresh [] early (codes "ab\ncd") begin refl) refl

read_new_lines-split_example :
    ((later : Bytes) × (codes "ab\ncd\nef" ≡ codes "ab\ncd\nef" ++ later))
    × ((8 ≡ (read_new_lines late behind_early).1.offset)
        × (split_lines (codes "ab\ncd\nef") ≡ (codes "ab" ∷ (codes "cd" ∷ []), codes "ef")))
unfolding new_bytes read_new_lines
read_new_lines-split_example =
    read_new_lines-split (codes "ab\ncd\nef")
      (([] ++ new_bytes early 0) ++ new_bytes late behind_early.offset)
      (read_new_lines late behind_early).1
      (([] ++ (read_new_lines early fresh).0) ++ (read_new_lines late behind_early).0) two-polled
