-- ===== src/Prompts/Template/Render/Deeper.antt =====
-- A render that succeeds is not changed by a deeper limit.
use mathlib.Core.Path.{subst}
use ateam.Prelude.{
  ℕ, zero, suc, ◌+◌, Bool, true, false, Option, none, some, List, [], ◌∷◌, ◌≡◌, refl, sym, ap, ◌∙◌,
  arith, Bytes, codes, eq, length, cut, trim_space, is_empty, if◌then◌else◌,
}
use ateam.Prompts.Result.{PromptError, rendering, while_doing, Result, ok, err, ◌>>=◌, wrap}
use ateam.Prompts.Assembler.{Anchor, Match, first_match, all_matches}
use ateam.Prompts.Template.Scan.{Cut, cut_open, cut_close, split_head, split_fallback}
use ateam.Prompts.Template.Tokens.{tokenize}
use ateam.Prompts.Template.Render.{
  Engine, Vars, Lookup, value, missing, unknown, Renderer, include_at, include_glob_at, dynamic_at,
  expand, opened, closed, arguments, one_path, included, include, render_matches, include_glob,
  dynamic, dispatched, substituted, Dispatched, Rest, nothing, other_shape, default_text,
  rest_shape, variable, dotted, resolve, render_at,
}

-- A result that succeeds stays as it is; one that fails may turn into any other.
abbrev Improves : {A : Type 0} → Result A → Result A → Type 0
Improves (ok a) y = y ≡ ok a
Improves (err e) y = Unit

Improves-self : {A : Type 0} (x : Result A) → Improves x x
Improves-self (ok a) = refl
Improves-self (err e) = tt

Improves->>= :
    {A B : Type 0} (x y : Result A) (f g : A → Result B)
    → Improves x y
    → ((a : A) → Improves (f a) (g a))
    → Improves (x >>= f) (y >>= g)
Improves->>= (err e) y f g h k = tt
Improves->>= (ok a) y f g h k = subst (λ z. Improves (f a) (z >>= g)) (sym h) (k a)

Improves-if :
    {A : Type 0} (b : Bool) (x x' y y' : Result A)
    → Improves x x'
    → Improves y y'
    → Improves (if b then x else y) (if b then x' else y')
Improves-if true x x' y y' hx hy = hx
Improves-if false x x' y y' hx hy = hy

Improves-wrap :
    {A : Type 0} (w : PromptError → PromptError) (x y : Result A)
    → Improves x y
    → Improves (wrap w x) (wrap w y)
Improves-wrap w (err e) y h = tt
Improves-wrap w (ok a) y h = subst (λ z. wrap w z ≡ ok a) (sym h) refl

-- A renderer that does at least as well on every text.
abbrev Better : Renderer → Renderer → Type 0
Better r s = (t : Bytes) → Improves (r t) (s t)

closed-Improves :
    (r r' f g : Renderer) (content before : Bytes) (o : Cut)
    → Better r r'
    → Better f g
    → Improves (closed r f content before o) (closed r' g content before o)
closed-Improves r r' f g content before none hr hf = refl
closed-Improves r r' f g content before (some (directive, later)) hr hf =
    Improves->>= (r (trim_space directive)) (r' (trim_space directive)) _ _
      (hr (trim_space directive)) (λ a. Improves->>= (f later) (g later) _ _ (hf later) (λ b. refl))

opened-Improves :
    (r r' f g : Renderer) (content : Bytes) (o : Cut)
    → Better r r'
    → Better f g
    → Improves (opened r f content o) (opened r' g content o)
opened-Improves r r' f g content none hr hf = refl
opened-Improves r r' f g content (some (before, inside)) hr hf =
    closed-Improves r r' f g content before (cut_close 1 inside) hr hf

expand-Better : (r r' : Renderer) (fuel : ℕ) → Better r r' → Better (expand r fuel) (expand r' fuel)
unfolding expand
expand-Better r r' zero h content = refl
expand-Better r r' (suc fuel) h content =
    opened-Improves r r' (expand r fuel) (expand r' fuel) content (cut_open content) h
      (expand-Better r r' fuel h)

module _ (e : Engine) (vars : Vars) (r s : Renderer) (h : Better r s) where
  included-Improves :
      (fallback : Option Bytes) (optional : Bool) (path : Bytes) (o : Option Match)
      → Improves (included r fallback optional path o) (included s fallback optional path o)
  included-Improves fallback optional path (some m) = h m.content
  included-Improves (some tail) optional path none = h tail
  included-Improves none optional path none = Improves-self (included r none optional path none)

  include-Improves :
      (arg : Bytes) (optional : Bool) (o : Option (List Anchor))
      → Improves (include_at r arg optional o) (include_at s arg optional o)
  include-Improves arg optional none = tt
  include-Improves arg optional (some anchors) =
      let (path_arg, fallback) = split_fallback arg in
      Improves->>= (r path_arg) (s path_arg) _ _ (h path_arg) (λ expanded.
        Improves->>= (arguments arg (tokenize expanded)) (arguments arg (tokenize expanded)) _ _
          (Improves-self (arguments arg (tokenize expanded)))
          (λ args.
            Improves->>= (one_path arg args) (one_path arg args) _ _
              (Improves-self (one_path arg args))
              (λ path.
                Improves->>= (wrap (while_doing path) (first_match anchors path))
                  (wrap (while_doing path) (first_match anchors path)) _ _
                  (Improves-self (wrap (while_doing path) (first_match anchors path)))
                  (λ o. included-Improves fallback optional path o))))

  render_matches-Improves :
      (pattern : Bytes) (ms : List Match)
      → Improves (render_matches r pattern ms) (render_matches s pattern ms)
  unfolding render_matches
  render_matches-Improves pattern [] = refl
  render_matches-Improves pattern (m ∷ ms) =
      Improves->>= (wrap (rendering pattern m.path m.anchor) (r m.content))
        (wrap (rendering pattern m.path m.anchor) (s m.content)) _ _
        (Improves-wrap (rendering pattern m.path m.anchor) (r m.content) (s m.content)
          (h m.content))
        (λ part.
          Improves->>= (render_matches r pattern ms) (render_matches s pattern ms) _ _
            (render_matches-Improves pattern ms) (λ parts. refl))

  include_glob-Improves :
      (arg : Bytes) (o : Option (List Anchor))
      → Improves (include_glob_at r arg o) (include_glob_at s arg o)
  include_glob-Improves arg none = tt
  include_glob-Improves arg (some anchors) = Improves->>= (r arg) (s arg) _ _ (h arg) (λ pattern.
      Improves->>= (wrap (while_doing pattern) (all_matches anchors (pattern ∷ [])))
        (wrap (while_doing pattern) (all_matches anchors (pattern ∷ []))) _ _
        (Improves-self (wrap (while_doing pattern) (all_matches anchors (pattern ∷ []))))
        (λ ms.
          Improves->>= (render_matches r pattern ms) (render_matches s pattern ms) _ _
            (render_matches-Improves pattern ms) (λ parts. refl)))

  dynamic-Improves :
      (name rest : Bytes) (o : Option (Bytes → List Bytes → Dispatched))
      → Improves (dynamic_at r name rest o) (dynamic_at s name rest o)
  dynamic-Improves name rest none = refl
  dynamic-Improves name rest (some dispatch) =
      Improves->>= (r rest) (s rest) _ _ (h rest) (λ expanded.
        Improves-self
          (arguments name (tokenize expanded) >>= λ args. dispatched (dispatch name args)))

  substituted-Improves :
      (directive : Bytes) (fallback : Option Bytes) (l : Lookup)
      → Improves (substituted r directive fallback l) (substituted s directive fallback l)
  substituted-Improves directive fallback (missing why) = tt
  substituted-Improves directive fallback unknown = refl
  substituted-Improves directive none (value v) = refl
  substituted-Improves directive (some tail) (value v) =
      Improves-if (is_empty v) (r tail) (s tail) (ok v) (ok v) (h tail) refl

  variable-Improves :
      (directive ns key : Bytes) (rest : Rest)
      → Improves (variable vars r directive ns key rest) (variable vars s directive ns key rest)
  variable-Improves directive ns key other_shape = refl
  variable-Improves directive ns key nothing = substituted-Improves directive none (vars ns key)
  variable-Improves directive ns key (default_text tail) =
      substituted-Improves directive (some tail) (vars ns key)

  dotted-Improves :
      (directive rest : Bytes) (o : Option (Bytes × Bytes))
      → Improves (dotted e vars r directive rest o) (dotted e vars s directive rest o)
  unfolding dynamic
  dotted-Improves directive rest none = refl
  dotted-Improves directive rest (some (ns, key)) = Improves-if (is_empty ns) _ _ _ _ refl (
      Improves-if (is_empty key) _ _ _ _ refl (
        Improves-if (eq ns (codes "dynamic")) _ _ _ _ (dynamic-Improves key rest e.dispatcher)
          (variable-Improves directive ns key (rest_shape rest))))

  resolve-Better : Better (resolve e vars r) (resolve e vars s)
  unfolding resolve include include_glob
  resolve-Better directive =
      let (head, rest) = split_head directive in
      Improves-if (eq head (codes "include")) _ _ _ _ (include-Improves rest false e.asm) (
        Improves-if (eq head (codes "include?")) _ _ _ _ (include-Improves rest true e.asm) (
          Improves-if (eq head (codes "include_glob")) _ _ _ _ (include_glob-Improves rest e.asm)
            (dotted-Improves directive rest (cut b'.' head))))

render_at-Better :
    (e : Engine) (vars : Vars) (left : ℕ)
    → Better (render_at left e vars) (render_at (suc left) e vars)
unfolding render_at
render_at-Better e vars zero content = tt
render_at-Better e vars (suc left) content =
    expand-Better (resolve e vars (render_at left e vars))
      (resolve e vars (render_at (suc left) e vars)) (length content)
      (resolve-Better e vars (render_at left e vars) (render_at (suc left) e vars)
        (render_at-Better e vars left))
      content

Improves-ok : {A : Type 0} (x y : Result A) {a : A} → Improves x y → x ≡ ok a → y ≡ ok a
Improves-ok (ok b) y h e = h ∙ e
Improves-ok (err x) y h e = cc

zero_more : (n : ℕ) → 0 + n ≡ n
zero_more n = omega arith

suc_more : (m n : ℕ) → suc m + n ≡ suc (m + n)
suc_more m n = omega arith

-- A text that renders with some number of include levels left renders to the same text with any
-- greater number: the depth limit only refuses, and never changes a result.
pub render_at-deeper :
    (e : Engine) (vars : Vars) (left more : ℕ) (content : Bytes) {rendered : Bytes}
    → render_at left e vars content ≡ ok rendered
    → render_at (more + left) e vars content ≡ ok rendered
render_at-deeper e vars left zero content h =
    ap (λ n. render_at n e vars content) (zero_more left) ∙ h
render_at-deeper e vars left (suc more) content h =
    ap (λ n. render_at n e vars content) (suc_more more left)
    ∙ Improves-ok (render_at (more + left) e vars content)
        (render_at (suc (more + left)) e vars content)
        (render_at-Better e vars (more + left) content)
        (render_at-deeper e vars left more content h)
