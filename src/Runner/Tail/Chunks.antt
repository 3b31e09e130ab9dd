-- ===== src/Runner/Tail/Chunks.antt =====
-- The lines of a growing file do not depend on when it is read.
use ateam.Prelude.{
  ℕ, zero, suc, ◌+◌, ◌-◌, Bool, true, false, not, ◌&&◌, Option, none, some, List, [], ◌∷◌, ◌++◌,
  ◌≡◌, refl, sym, ap, ◌∙◌, Bytes, drop, take, length, length-append, append-nil, append_assoc, leb,
  ltb, ◌==◌, Bool-cases, inl, inr, if◌then◌else◌,
}
use ateam.Runner.Tail.{
  View, Reading, fresh, put_front, split_lines, of_size, new_bytes, take_in, read_new_lines,
}

-- A reader that polls a file from its beginning: the file's content in the last round, the bytes
-- read, the state, and all lines returned. The file only grows at its end.
pub data Polled : Bytes → Bytes → Reading → List Bytes → Type 0 where
  begin : Polled [] [] fresh []
  poll :
      (old read : Bytes) (r : Reading) (ls : List Bytes) (v : View) (more : Bytes)
      → Polled old read r ls
      → v.content ≡ old ++ more
      → Polled v.content
          (read ++ new_bytes v r.offset)
          (read_new_lines v r).1
          (ls ++ (read_new_lines v r).0)

-- Lines, and what a text continues with.
abbrev then_lines : List Bytes × Bytes → Bytes → List Bytes × Bytes
then_lines first ys = (first.0 ++ (split_lines (first.1 ++ ys)).0, (split_lines (first.1 ++ ys)).1)

split_lines-other :
    (c : ℕ) (s : Bytes) → (c == b'\n') ≡ false → split_lines (c ∷ s) ≡ put_front c (split_lines s)
unfolding split_lines
split_lines-other c s h = rw h refl

split_lines-newline :
    (c : ℕ) (s : Bytes)
    → (c == b'\n') ≡ true
    → split_lines (c ∷ s) ≡ ([] ∷ (split_lines s).0, (split_lines s).1)
unfolding split_lines
split_lines-newline c s h = rw h refl

put_front-then_lines :
    (c : ℕ) (first : List Bytes × Bytes) (ys : Bytes)
    → (c == b'\n') ≡ false
    → put_front c (then_lines first ys) ≡ then_lines (put_front c first) ys
put_front-then_lines c ([], rest) ys h = sym (split_lines-other c (rest ++ ys) h)
put_front-then_lines c (l ∷ ls, rest) ys h = refl

split_nil : (ys : Bytes) → split_lines ys ≡ then_lines (split_lines []) ys
unfolding split_lines
split_nil ys = refl

split_lines-append : (xs ys : Bytes) → split_lines (xs ++ ys) ≡ then_lines (split_lines xs) ys
split_lines-append [] ys = split_nil ys
split_lines-append (c ∷ xs) ys = elim (Bool-cases (c == b'\n')) [
  | inl newline ↦
      split_lines-newline c (xs ++ ys) newline
      ∙ ap (λ z. ([] ∷ z.0, z.1)) (split_lines-append xs ys)
      ∙ ap (λ z. then_lines z ys) (sym (split_lines-newline c xs newline))
  | inr other ↦
      split_lines-other c (xs ++ ys) other
      ∙ ap (put_front c) (split_lines-append xs ys)
      ∙ put_front-then_lines c (split_lines xs) ys other
      ∙ ap (λ z. then_lines z ys) (sym (split_lines-other c xs other))
]

-- What is taken from a list is the front of it.
abbrev Front : Bytes → Bytes → Type 0
Front xs all = (later : Bytes) × (all ≡ xs ++ later)

take-Front : (n : ℕ) (xs : Bytes) → Front (take n xs) xs
take-Front zero xs = (xs, refl)
take-Front (suc n) [] = ([], refl)
take-Front (suc n) (x ∷ xs) = let (later, e) = take-Front n xs in (later, ap (◌∷◌ x) e)

Front-chain : (xs ys zs : Bytes) → Front xs ys → Front ys zs → Front xs zs
Front-chain xs ys zs (a, e) (b, f) = (a ++ b, f ∙ ap (λ z. z ++ b) e ∙ append_assoc xs a b)

if-Front :
    (b : Bool) (xs ys all : Bytes) → Front xs all → Front ys all → Front (if b then xs else ys) all
if-Front true xs ys all f g = f
if-Front false xs ys all f g = g

nothing-Front : (all : Bytes) → Front [] all
nothing-Front all = (all, refl)

new_bytes-Front : (v : View) (offset : ℕ) → Front (new_bytes v offset) (drop offset v.content)
unfolding new_bytes
new_bytes-Front v offset =
    if-Front v.opens (of_size v offset v.size) [] rest (sized v.size) (nothing-Front rest)
  where
    rest : Bytes
    rest = drop offset v.content

    sized : (size : Option ℕ) → Front (of_size v offset size) (drop offset v.content)
    sized none = nothing-Front (drop offset v.content)
    sized (some size) =
        if-Front (leb size offset) [] _ (drop offset v.content)
          (nothing-Front (drop offset v.content))
          (if-Front (ltb 0 offset && not v.seeks) [] _ (drop offset v.content)
            (nothing-Front (drop offset v.content))
            (Front-chain (take v.reads (take (size - offset) (drop offset v.content)))
              (take (size - offset) (drop offset v.content)) (drop offset v.content)
              (take-Front v.reads (take (size - offset) (drop offset v.content)))
              (take-Front (size - offset) (drop offset v.content))))

drop-append : (xs ys : Bytes) → drop (length xs) (xs ++ ys) ≡ ys
drop-append [] ys = refl
drop-append (x ∷ xs) ys = drop-append xs ys

-- What is known of a reader.
record Kept (content read : Bytes) (r : Reading) (ls : List Bytes) : Type 0 where
  front : Front read content
  counted : length read ≡ r.offset
  lines : split_lines read ≡ (ls, r.partial)

-- The same when the bytes of a round are taken in.
record Grown (read new : Bytes) (r : Reading) (ls : List Bytes) : Type 0 where
  counted : length (read ++ new) ≡ (take_in r new).1.offset
  lines : split_lines (read ++ new) ≡ (ls ++ (take_in r new).0, (take_in r new).1.partial)

take_in-Grown :
    (read new : Bytes) (r : Reading) (ls : List Bytes)
    → length read ≡ r.offset
    → split_lines read ≡ (ls, r.partial)
    → Grown read new r ls
take_in-Grown read [] r ls n e = record {
  counted = ap length (append-nil read) ∙ n;
  lines = ap split_lines (append-nil read) ∙ e ∙ ap (λ z. (z, r.partial)) (sym (append-nil ls));
}
take_in-Grown read (c ∷ new) r ls n e = record {
  counted = length-append read (c ∷ new) ∙ ap (λ z. z + length (c ∷ new)) n;
  lines = split_lines-append read (c ∷ new) ∙ ap (λ z. then_lines z (c ∷ new)) e;
}

split_nothing : split_lines [] ≡ ([], [])
unfolding split_lines
split_nothing = refl

-- What stands behind the bytes read, in a file that has grown.
behind_read :
    (old read more content later : Bytes) (offset : ℕ)
    → content ≡ old ++ more
    → old ≡ read ++ later
    → length read ≡ offset
    → (drop offset content ≡ later ++ more) × (content ≡ read ++ (later ++ more))
behind_read old read more content later offset grown front n =
    let all = grown ∙ ap (λ z. z ++ more) front ∙ append_assoc read later more in
    (
      ap (λ z. drop z content) (sym n)
          ∙ ap (drop (length read)) all
          ∙ drop-append read (later ++ more),
      all,
    )

longer-Front :
    (read new content rest : Bytes) (offset : ℕ)
    → (drop offset content ≡ rest) × (content ≡ read ++ rest)
    → Front new (drop offset content)
    → Front (read ++ new) content
longer-Front read new content rest offset (d, all) (later, e) =
    (later, all ∙ ap (λ z. read ++ z) (sym d ∙ e) ∙ sym (append_assoc read new later))

Polled-Kept :
    (content read : Bytes) (r : Reading) (ls : List Bytes)
    → Polled content read r ls
    → Kept content read r ls
unfolding read_new_lines
Polled-Kept content read r ls begin = record {
  front = ([], refl);
  counted = refl;
  lines = split_nothing;
}
Polled-Kept content read r ls (poll old before s lines v more p grown) =
    let k = Polled-Kept old before s lines p in
    let g = take_in-Grown before (new_bytes v s.offset) s lines k.counted k.lines in
    record {
      front =
          longer-Front before (new_bytes v s.offset) v.content _ s.offset
            (behind_read old before more v.content k.front.0 s.offset grown k.front.1 k.counted)
            (new_bytes-Front v s.offset);
      counted = g.counted;
      lines = g.lines;
    }

-- A reader that polls a file which only grows has, at any time, read the file from its beginning up
-- to its offset, and has returned exactly the complete lines of what it read; what it keeps back is
-- the rest. So the lines do not depend on when the file was polled and on how much each call read.
pub read_new_lines-split :
    (content read : Bytes) (r : Reading) (ls : List Bytes)
    → Polled content read r ls
    → ((later : Bytes) × (content ≡ read ++ later))
      × ((length read ≡ r.offset) × (split_lines read ≡ (ls, r.partial)))
read_new_lines-split content read r ls p =
    let k = Polled-Kept content read r ls p in (k.front, (k.counted, k.lines))
