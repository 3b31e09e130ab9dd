-- ===== src/Tests/Templates.antt =====
-- internal/prompts/assembler: two anchors that both have a file, and the renderer of templates.
use ateam.Prelude.{
  ℕ, suc, ◌+◌, ◌≤◌, Bool, true, false, Option, none, some, List, [], ◌∷◌, ◌≡◌, refl, sym, ap, ◌∙◌,
  arith, Bytes, codes, eq, is_empty, length, join, map, Member, first, if◌then◌else◌,
}
use ateam.Prompts.Result.{ok}
use ateam.Prompts.Assembler.{
  Read, contents, not_exist, Globbed, names, Fs, Anchor, Match, first_match, glob_any, all_matches,
  mem,
}
use ateam.Prompts.Assembler.Overrides.{all_matches-first_match, Agrees}
use ateam.Prompts.Assemble.{AssembleOptions, AssembleResult, resolve}
use ateam.Prompts.Template.Tokens.{tokens, tokenize}
use ateam.Prompts.Template.Quote.{tokenize-quote, quote}
use ateam.Prompts.Template.Render.{
  Lookup, value, unknown, Vars, Engine, new_engine, expand, render_at,
}
use ateam.Prompts.Template.Render.Deeper.{render_at-deeper}

abbrev tone : Bytes
tone = codes "tone.md"

abbrev one_file : Bytes → Fs
one_file text = record {
  read_file = λ path. if eq path tone then contents text else not_exist;
  glob = λ pattern. if eq pattern (codes "*.md") then names (tone ∷ []) else names [];
}

abbrev anchors : List Anchor
anchors =
    record { name = codes "project"; fs = one_file (codes "short") }
    ∷ (record { name = codes "org"; fs = one_file (codes "long") } ∷ [])

abbrev patterns : List Bytes
patterns = codes "*.md" ∷ []

abbrev found_tone : Match
found_tone = record { anchor = codes "project"; path = tone; content = codes "short" }

found : all_matches anchors patterns ≡ ok (found_tone ∷ [])
unfolding all_matches eq glob_any ateam.Prompts.Assembler.Sorting.sort_strings
    ateam.Prompts.Assembler.content_src
found = refl

names_same : {a b : List Bytes} → names a ≡ names b → a ≡ b
names_same h = cc

one_file-Agrees :
    (name text : Bytes) → Agrees patterns tone (record { name = name; fs = one_file text })
unfolding glob_any eq
one_file-Agrees name text listed h = ap (mem tone) (sym (names_same h))

all_matches-first_match_example : first_match anchors tone ≡ ok (some found_tone)
all_matches-first_match_example =
    all_matches-first_match anchors patterns (found_tone ∷ []) found_tone found (first refl) (
      one_file-Agrees (codes "project") (codes "short"),
      (one_file-Agrees (codes "org") (codes "long"), tt),
    )

abbrev two_args : List Bytes
two_args = codes "say \"hi\"" ∷ (codes "a\\b" ∷ [])

tokenize-quote_example : tokenize (join (codes " ") (map quote two_args)) ≡ tokens two_args
tokenize-quote_example = tokenize-quote two_args

abbrev vars : Vars
vars ns key = if eq ns (codes "prompt") then value (codes "sec") else unknown

abbrev engine : Engine
engine = record { asm = some anchors; max_depth = 16; dispatcher = none }

abbrev nested : Bytes
nested = codes "{{include tone.md}} by {{prompt.role}}{{x.y}}"

nested_rendered : render_at 2 engine vars nested ≡ ok (codes "short by sec{{x.y}}")
unfolding render_at expand ateam.Prompts.Template.Scan.cut_open
    ateam.Prompts.Template.Scan.cut_close ateam.Prompts.Template.Render.resolve eq
    ateam.Prompts.Template.Scan.split_head ateam.Prelude.trim_space
    ateam.Prompts.Template.Scan.split_fallback tokenize first_match ateam.Prelude.cut
nested_rendered = refl

render_at-deeper_example : render_at (15 + 2) engine vars nested ≡ ok (codes "short by sec{{x.y}}")
render_at-deeper_example = render_at-deeper engine vars 2 15 nested nested_rendered

abbrev prompts : Bytes → Read
prompts path =
    if eq path (codes "code/sec.prompt.md")
    then contents (codes "---\nlegacy: no\n---\nAudit {{prompt.role}}")
    else if eq path (codes "_pre.a.md")
    then contents (codes "Be brief.")
    else not_exist

abbrev tree : List Anchor
tree =
    record {
      name = codes "project";
      fs = record {
        read_file = prompts;
        glob = λ pattern.
            if eq pattern (codes "_pre.*.md") then names (codes "_pre.a.md" ∷ []) else names [];
      };
    }
    ∷ []

abbrev after_text : AssembleOptions
after_text = record { replace_role_main = []; pre_prompt = []; post_prompt = codes "Go." }

abbrev security : AssembleResult
security = record {
  prompt = codes "Be brief.\n\n---\n\nAudit sec\n\n---\n\nGo.";
  sections =
      record {
        anchor = codes "project";
        path = codes "_pre.a.md";
        slot = codes "root_pre";
        content = codes "Be brief.";
      }
      ∷ (record {
        anchor = codes "project";
        path = codes "code/sec.prompt.md";
        slot = codes "role_main";
        content = codes "Audit sec";
      }
          ∷ (record {
            anchor = codes "cli";
            path = codes "(--post-prompt)";
            slot = codes "cli_post_prompt";
            content = codes "Go.";
          }
              ∷ []));
}
