-- ===== src/Config/ProjectId/RoundTrip.antt =====
-- internal/config/projectid.go: when a project's directory name leads back to its path, and that it
-- is one name.
use ateam.Prelude.{
  ℕ, zero, suc, ◌+◌, ◌-◌, ◌≤◌, Bool, true, false, ◌||◌, ◌&&◌, [], ◌∷◌, ◌++◌, ◌≡◌, refl, sym, ap,
  ◌∙◌, arith, Bytes, codes, length, take, any, Bool-cases, ==_iff, inl, inr, any-append, ltb, ◌==◌,
  if◌then◌else◌, length-append,
}
use ateam.Config.ProjectId.{
  escape, encode, runes, runes_from, hex, path_to_project_id, collapse, replace_byte,
  project_id_to_path, max_project_id_len,
}

-- No NUL byte, and no `/` before an `_` or another `/`.
abbrev pub separable : Bytes → Bool
separable [] = true
separable (x ∷ []) = if x == 0 then false else true
separable (x ∷ (y ∷ s)) =
    let rest = separable (y ∷ s) in
    if x == 0 then false else if x == 47 && (y == 95 || y == 47) then false else rest

abbrev restore : Bytes → Bytes
restore s = replace_byte 0 95 (replace_byte 95 47 s)

collapse-other : (x : ℕ) (s : Bytes) → (x == 95) ≡ false → collapse (x ∷ s) ≡ x ∷ collapse s
unfolding collapse
collapse-other x [] h = refl
collapse-other x (y ∷ s) h = rw h refl

abbrev starts : ℕ → Bytes → Bool
starts c [] = false
starts c (x ∷ s) = x == c

collapse-score : (s : Bytes) → starts 95 s ≡ false → collapse (95 ∷ s) ≡ 95 ∷ collapse s
unfolding collapse
collapse-score [] h = refl
collapse-score (y ∷ s) h = rw h refl

escape-starts :
    (y : ℕ) (s : Bytes) → (y == 95) ≡ false → (y == 47) ≡ false → starts 95 (escape (y ∷ s)) ≡ false
unfolding escape
escape-starts y s h h' = rw (h, h') h

-- What the decoder makes of the encoding of one byte.
score-restored :
    (s : Bytes) → restore (collapse (escape (95 ∷ s))) ≡ 95 ∷ restore (collapse (escape s))
unfolding escape collapse
score-restored s = refl

slash-restored :
    (s : Bytes)
    → starts 95 (escape s) ≡ false
    → restore (collapse (escape (47 ∷ s))) ≡ 47 ∷ restore (collapse (escape s))
unfolding escape
slash-restored s h = ap restore (collapse-score (escape s) h)

other-restored :
    (x : ℕ) (s : Bytes)
    → (x == 95) ≡ false
    → (x == 47) ≡ false
    → (x == 0) ≡ false
    → restore (collapse (escape (x ∷ s))) ≡ x ∷ restore (collapse (escape s))
unfolding escape
other-restored x s h h' h0 =
    rw (h, h') (ap restore (collapse-other x (escape s) h) ∙ rw (h, h0) refl)

slash-restored_at :
    (x : ℕ) (s : Bytes)
    → (x == 47) ≡ true
    → starts 95 (escape s) ≡ false
    → restore (collapse (escape (x ∷ s))) ≡ x ∷ restore (collapse (escape s))
slash-restored_at x s h free = rw ((==_iff x 47).0 h) (slash-restored s free)

score-restored_at :
    (x : ℕ) (s : Bytes)
    → (x == 95) ≡ true
    → restore (collapse (escape (x ∷ s))) ≡ x ∷ restore (collapse (escape s))
score-restored_at x s h = rw ((==_iff x 95).0 h) (score-restored s)

separable-nonzero : (x : ℕ) (s : Bytes) → separable (x ∷ s) ≡ true → (x == 0) ≡ false
separable-nonzero x [] h = ground arith
separable-nonzero x (y ∷ s) h = ground arith

separable-tail : (x : ℕ) (s : Bytes) → separable (x ∷ s) ≡ true → separable s ≡ true
separable-tail x [] h = refl
separable-tail x (y ∷ s) h = ground arith

separable-starts :
    (x : ℕ) (s : Bytes) → separable (x ∷ s) ≡ true → (x == 47) ≡ true → starts 95 (escape s) ≡ false
unfolding escape
separable-starts x [] h slash = refl
separable-starts x (y ∷ s) h slash = escape-starts y s (ground arith) (ground arith)

byte-restored :
    (x : ℕ) (s : Bytes)
    → separable (x ∷ s) ≡ true
    → restore (collapse (escape (x ∷ s))) ≡ x ∷ restore (collapse (escape s))
byte-restored x s h = elim (Bool-cases (x == 95)) [
  | inl score ↦ score-restored_at x s score
  | inr ordinary ↦ elim (Bool-cases (x == 47)) [
    | inl slash ↦ slash-restored_at x s slash (separable-starts x s h slash)
    | inr other ↦ other-restored x s ordinary other (separable-nonzero x s h)
  ]
]

restore-empty : restore (collapse (escape [])) ≡ []
unfolding escape collapse
restore-empty = refl

restore-escape : (s : Bytes) → separable s ≡ true → restore (collapse (escape s)) ≡ s
restore-escape [] h = restore-empty
restore-escape (x ∷ s) h =
    byte-restored x s h ∙ ap (◌∷◌ x) (restore-escape s (separable-tail x s h))

escape-length : (s : Bytes) → length s ≤ length (escape s)
unfolding escape
escape-length [] = omega arith
escape-length (x ∷ s) = ground (arith, escape-length s)

abbrev pub IsUtf8 : Bytes → Type 0
IsUtf8 s = (runes s ≡ s)

encode-escape : (s : Bytes) → IsUtf8 s → encode s ≡ escape s
unfolding encode
encode-escape s valid = ap escape valid

encode-empty : [] ≡ encode []
unfolding encode runes_from escape
encode-empty = refl

long-false : (n m : ℕ) → m ≤ n → ltb n m ≡ false
long-false n m h = ground arith

path_to_project_id-encode :
    (sha256 : Bytes → Bytes) (path : Bytes)
    → length (encode path) ≤ max_project_id_len
    → path_to_project_id sha256 path ≡ encode path
unfolding path_to_project_id
path_to_project_id-encode sha256 [] le = encode-empty
path_to_project_id-encode sha256 (x ∷ s) le =
    rw (long-false max_project_id_len (length (encode (x ∷ s))) le) refl

project_id_to_path-escape : (s : Bytes) → separable s ≡ true → project_id_to_path (escape s) ≡ s
unfolding project_id_to_path
project_id_to_path-escape [] h = unfold escape in refl
project_id_to_path-escape (x ∷ s) h =
    ground (arith, restore-escape (x ∷ s) h, escape-length (x ∷ s))

-- `ProjectIDToPath` takes the name of a project back to its path, if the path is valid UTF-8, has
-- no NUL byte and no `/` in front of an `_` or of another `/`, and if its encoding has at most 240
-- bytes.
pub project_id_to_path-path_to_project_id :
    (sha256 : Bytes → Bytes) (path : Bytes)
    → IsUtf8 path
    → separable path ≡ true
    → length (encode path) ≤ max_project_id_len
    → project_id_to_path (path_to_project_id sha256 path) ≡ path
project_id_to_path-path_to_project_id sha256 path valid h le =
    ap project_id_to_path (path_to_project_id-encode sha256 path le ∙ encode-escape path valid)
    ∙ project_id_to_path-escape path h

escape-no_slash : (s : Bytes) → any (λ c. c == 47) (escape s) ≡ false
unfolding escape
escape-no_slash [] = refl
escape-no_slash (x ∷ s) = ground (arith, escape-no_slash s)

encode-no_slash : (s : Bytes) → any (λ c. c == 47) (encode s) ≡ false
unfolding encode
encode-no_slash s = escape-no_slash (runes s)

hex-no_slash : (s : Bytes) → any (λ c. c == 47) (hex s) ≡ false
unfolding hex
hex-no_slash [] = refl
hex-no_slash (x ∷ s) = ground (arith, hex-no_slash s)

hex-length : (s : Bytes) → length (hex s) ≡ length s + length s
unfolding hex
hex-length [] = refl
hex-length (x ∷ s) = omega (arith, hex-length s)

take-no_slash :
    (n : ℕ) (s : Bytes) → any (λ c. c == 47) s ≡ false → any (λ c. c == 47) (take n s) ≡ false
take-no_slash zero s h = refl
take-no_slash (suc n) [] h = refl
take-no_slash (suc n) (x ∷ s) h = ground (arith, take-no_slash n s)

length-take_le : (n : ℕ) (s : Bytes) → length (take n s) ≤ n
length-take_le zero s = omega arith
length-take_le (suc n) [] = omega arith
length-take_le (suc n) (x ∷ s) = omega (arith, length-take_le n s)

abbrev OneName : Bytes → Type 0
OneName id = (length id ≤ max_project_id_len) × (any (λ c. c == 47) id ≡ false)

truncated-OneName :
    (key digits : Bytes)
    → length digits ≤ 8
    → any (λ c. c == 47) key ≡ false
    → any (λ c. c == 47) digits ≡ false
    → OneName (take (max_project_id_len - length (95 ∷ digits)) key ++ 95 ∷ digits)
truncated-OneName key digits le hk hd = (
  omega (
    arith,
    length-append (take (max_project_id_len - length (95 ∷ digits)) key) (95 ∷ digits),
    length-take_le (max_project_id_len - length (95 ∷ digits)) key,
  ),
  any-append (λ c. c == 47) (take (max_project_id_len - length (95 ∷ digits)) key) (95 ∷ digits)
      ∙ rw (take-no_slash (max_project_id_len - length (95 ∷ digits)) key hk) hd,
)

chosen-OneName :
    (b : Bool) (long key : Bytes)
    → ltb max_project_id_len (length key) ≡ b
    → OneName long
    → any (λ c. c == 47) key ≡ false
    → OneName (if b then long else key)
chosen-OneName true long key h hl hk = hl
chosen-OneName false long key h hl hk = (ground arith, hk)

digits-length : (s : Bytes) → length (hex (take 4 s)) ≤ 8
digits-length s = omega (arith, hex-length (take 4 s), length-take_le 4 s)

-- Whatever the path, its project has one directory name of at most 240 bytes without a `/`.
pub path_to_project_id-one_name :
    (sha256 : Bytes → Bytes) (path : Bytes)
    → (length (path_to_project_id sha256 path) ≤ max_project_id_len)
      × (any (λ c. c == 47) (path_to_project_id sha256 path) ≡ false)
unfolding path_to_project_id
path_to_project_id-one_name sha256 [] = (omega arith, refl)
path_to_project_id-one_name sha256 (x ∷ s) =
    chosen-OneName (ltb max_project_id_len (length (encode (x ∷ s))))
      (take (max_project_id_len - length (95 ∷ hex (take 4 (sha256 (x ∷ s))))) (encode (x ∷ s))
        ++ 95 ∷ hex (take 4 (sha256 (x ∷ s))))
      (encode (x ∷ s)) refl
      (truncated-OneName (encode (x ∷ s)) (hex (take 4 (sha256 (x ∷ s))))
        (digits-length (sha256 (x ∷ s))) (encode-no_slash (x ∷ s))
        (hex-no_slash (take 4 (sha256 (x ∷ s)))))
      (encode-no_slash (x ∷ s))

escape-append : (a b : Bytes) → escape (a ++ b) ≡ escape a ++ escape b
unfolding escape
escape-append [] b = refl
escape-append (x ∷ a) b = ground (arith, escape-append a b)

escape-three : (b : Bytes) → escape (codes "_/" ++ b) ≡ escape (codes "/_" ++ b)
unfolding escape
escape-three b = refl

escape-swap : (a b : Bytes) → escape (a ++ (codes "_/" ++ b)) ≡ escape (a ++ (codes "/_" ++ b))
escape-swap a b =
    escape-append a (codes "_/" ++ b)
    ∙ ap (◌++◌ (escape a)) (escape-three b)
    ∙ sym (escape-append a (codes "/_" ++ b))

encode-swap :
    (a b : Bytes)
    → IsUtf8 (a ++ (codes "_/" ++ b))
    → IsUtf8 (a ++ (codes "/_" ++ b))
    → encode (a ++ (codes "_/" ++ b)) ≡ encode (a ++ (codes "/_" ++ b))
encode-swap a b u v =
    encode-escape (a ++ (codes "_/" ++ b)) u
    ∙ escape-swap a b
    ∙ sym (encode-escape (a ++ (codes "/_" ++ b)) v)

-- Two paths that differ in the place of one `/` beside an `_` have one directory name, if both are
-- valid UTF-8 and their encoding has at most 240 bytes: the names do not tell these projects apart.
pub path_to_project_id-collides :
    (sha256 : Bytes → Bytes) (a b : Bytes)
    → IsUtf8 (a ++ (codes "_/" ++ b))
    → IsUtf8 (a ++ (codes "/_" ++ b))
    → length (encode (a ++ (codes "_/" ++ b))) ≤ max_project_id_len
    → path_to_project_id sha256 (a ++ (codes "_/" ++ b))
      ≡ path_to_project_id sha256 (a ++ (codes "/_" ++ b))
path_to_project_id-collides sha256 a b u v le =
    path_to_project_id-encode sha256 (a ++ (codes "_/" ++ b)) le
    ∙ encode-swap a b u v
    ∙ sym (
        path_to_project_id-encode sha256 (a ++ (codes "/_" ++ b))
          (omega (arith, le, ap length (encode-swap a b u v))))
