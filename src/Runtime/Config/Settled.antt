-- ===== src/Runtime/Config/Settled.antt =====
-- What an agent of internal/runtime/config.go is to be, without a base or over its base, field by
-- field and apart from how the code computes it.
use ateam.Prelude.{
  zero, suc, Bool, ◌||◌, true, false, Option, none, some, [], ◌∷◌, ◌≡◌, refl, Bytes, is_empty,
}
use ateam.Prelude.Int.{ℤ, pos, negsuc}
use ateam.Prelude.Dict.{lookup}
use ateam.Runtime.Config.{AgentConfig, Agents, inherit, or_text, or_some, or_number}
use ateam.Runtime.Config.Chain.{Effective, root, child}

-- A text, a slice, map or pricing, a number, a flag: the agent's own if it is set, else its base's.
abbrev Text : Bytes → Bytes → Bytes → Type 0
Text [] base out = out ≡ base
Text (c ∷ own) base out = out ≡ c ∷ own

abbrev Given : {A : Type 0} → Option A → Option A → Option A → Type 0
Given none base out = out ≡ base
Given (some own) base out = out ≡ some own

abbrev Number : ℤ → ℤ → ℤ → Type 0
Number (pos zero) base out = out ≡ base
Number own base out = out ≡ own

abbrev Flag : Bool → Bool → Bool → Type 0
Flag true base out = out ≡ true
Flag false base out = out ≡ base

-- An agent over its base, field by field.
abbrev pub Inherits : AgentConfig → AgentConfig → AgentConfig → Type 0
Inherits own base out =
    (out.name ≡ own.name)
    × (out.base ≡ own.base)
    × Text own.command base.command out.command
    × Given own.args base.args out.args
    × Text own.model base.model out.model
    × Text own.effort base.effort out.effort
    × Text own.max_budget_usd base.max_budget_usd out.max_budget_usd
    × Text own.type base.type out.type
    × Text own.start_timeout base.start_timeout out.start_timeout
    × Text own.busy_timeout base.busy_timeout out.busy_timeout
    × Text own.quiescence_window base.quiescence_window out.quiescence_window
    × Number own.tmux_width base.tmux_width out.tmux_width
    × Number own.tmux_height base.tmux_height out.tmux_height
    × Given own.env base.env out.env
    × Text own.sandbox base.sandbox out.sandbox
    × Given own.rw_paths base.rw_paths out.rw_paths
    × Given own.ro_paths base.ro_paths out.ro_paths
    × Given own.denied_paths base.denied_paths out.denied_paths
    × Text own.config_dir base.config_dir out.config_dir
    × Given own.pricing base.pricing out.pricing
    × Given own.required_env base.required_env out.required_env
    × Given own.args_inside_container base.args_inside_container out.args_inside_container
    × Given own.args_outside_container base.args_outside_container out.args_outside_container
    × Flag own.sandbox_inside_container base.sandbox_inside_container out.sandbox_inside_container

-- The configuration of an agent among the configured blocks: its block if it names no base, else
-- its block over what its base is to be.
pub data Settled (agents : Agents) : Bytes → AgentConfig → Type 0 where
  alone :
      {name : Bytes} {ac : AgentConfig}
      → lookup name agents ≡ some ac
      → ac.base ≡ []
      → Settled agents name ac
  over :
      {name : Bytes} {own base out : AgentConfig}
      → lookup name agents ≡ some own
      → Settled agents own.base base
      → Inherits own base out
      → Settled agents name out

text : (own base : Bytes) → Text own base (or_text own base)
text [] base = refl
text (c ∷ own) base = refl

given : {A : Type 0} (own base : Option A) → Given own base (or_some own base)
given none base = refl
given (some own) base = refl

number : (own base : ℤ) → Number own base (or_number own base)
number (pos zero) base = refl
number (pos (suc n)) base = refl
number (negsuc n) base = refl

flag : (own base : Bool) → Flag own base (own || base)
flag true base = refl
flag false base = refl

inherit-Inherits : (own base : AgentConfig) → Inherits own base (inherit own base)
unfolding inherit
inherit-Inherits own base = (
  refl,
  refl,
  text own.command base.command,
  given own.args base.args,
  text own.model base.model,
  text own.effort base.effort,
  text own.max_budget_usd base.max_budget_usd,
  text own.type base.type,
  text own.start_timeout base.start_timeout,
  text own.busy_timeout base.busy_timeout,
  text own.quiescence_window base.quiescence_window,
  number own.tmux_width base.tmux_width,
  number own.tmux_height base.tmux_height,
  given own.env base.env,
  text own.sandbox base.sandbox,
  given own.rw_paths base.rw_paths,
  given own.ro_paths base.ro_paths,
  given own.denied_paths base.denied_paths,
  text own.config_dir base.config_dir,
  given own.pricing base.pricing,
  given own.required_env base.required_env,
  given own.args_inside_container base.args_inside_container,
  given own.args_outside_container base.args_outside_container,
  flag own.sandbox_inside_container base.sandbox_inside_container,
)

empty_text : (s : Bytes) → is_empty s ≡ true → s ≡ []
empty_text [] h = refl
empty_text (c ∷ s) h = cc

pub Effective-Settled :
    {agents : Agents} {name : Bytes} {ac : AgentConfig}
    → Effective agents name ac
    → Settled agents name ac
Effective-Settled (root name ac h e) = alone h (empty_text ac.base e)
Effective-Settled (child name ac base h e b) =
    over h (Effective-Settled b) (inherit-Inherits ac base)
