-- ===== src/Prompts/Template/Render/Depth.antt =====
-- The depth limit of the engine, and the fuel of its loop.
use ateam.Prelude.{
  ℕ, zero, suc, ◌+◌, ◌-◌, ◌≤◌, ◌<◌, none, some, [], ◌∷◌, ◌++◌, ◌≡◌, refl, ap, arith, Bytes, length,
  trim_space,
}
use ateam.Prompts.Result.{ok, ◌>>=◌}
use ateam.Prompts.Template.Scan.{Cut, behind, cut_open, cut_close}
use ateam.Prompts.Template.Render.{Renderer, opened, closed, expand}

-- What a cut leaves is shorter.
abbrev Below : ℕ → Cut → Type 0
Below n none = Unit
Below n (some (l, r)) = length r < n

Below-behind : (n : ℕ) (before : Bytes) (c : Cut) → Below n c → Below (suc n) (behind before c)
Below-behind n before none h = tt
Below-behind n before (some (l, r)) h = omega arith

cut_open-Below : (s : Bytes) → Below (length s) (cut_open s)
unfolding cut_open
cut_open-Below [] = tt
cut_open-Below (c ∷ []) = tt
cut_open-Below (c ∷ (d ∷ s)) = ground (arith, cut_open-Below (d ∷ s))

cut_close-Below : (depth : ℕ) (s : Bytes) → Below (length s) (cut_close depth s)
unfolding cut_close
cut_close-Below depth [] = tt
cut_close-Below depth (c ∷ []) = tt
cut_close-Below depth (c ∷ (d ∷ s)) = ground (
  arith,
  cut_close-Below (depth + 1) s,
  cut_close-Below (depth - 1) s,
  cut_close-Below depth (d ∷ s),
)

closed-same :
    (r f g : Renderer) (content before : Bytes) (o : Cut) (n : ℕ)
    → Below n o
    → ((later : Bytes) → length later < n → f later ≡ g later)
    → closed r f content before o ≡ closed r g content before o
closed-same r f g content before none n b same = refl
closed-same r f g content before (some (directive, later)) n b same =
    ap
      (λ z. r (trim_space directive) >>= λ replacement.
        z >>= λ rest. ok (before ++ (replacement ++ rest)))
      (same later b)

opened-same :
    (r f g : Renderer) (content : Bytes) (o : Cut)
    → Below (length content) o
    → ((later : Bytes) → length later < length content → f later ≡ g later)
    → opened r f content o ≡ opened r g content o
opened-same r f g content none b same = refl
opened-same r f g content (some (before, inside)) b same =
    closed-same r f g content before (cut_close 1 inside) (length inside) (cut_close-Below 1 inside)
      (λ later h. same later (omega arith))

-- The loop of `render` is not cut short by its fuel: with as much fuel as the text has bytes, more
-- fuel changes nothing.
pub expand-fuel :
    (r : Renderer) (fuel : ℕ) (content : Bytes)
    → length content ≤ fuel
    → expand r fuel content ≡ expand r (suc fuel) content
unfolding expand cut_open
expand-fuel r zero [] le = refl
expand-fuel r zero (c ∷ content) le = absurd (omega arith)
expand-fuel r (suc fuel) content le =
    opened-same r (expand r fuel) (expand r (suc fuel)) content (cut_open content)
      (cut_open-Below content) (λ later h. expand-fuel r fuel later (omega arith))
