-- ===== src/Prompts/Assemble/Sections.antt =====
-- What the sections of an assembled prompt are, file by file.
use ateam.Prelude.{
  false, List, [], ◌∷◌, ◌++◌, ◌≡◌, Bytes, codes, is_empty, join, map, trim_space, if◌then◌else◌,
}
use ateam.Prompts.Result.{Result, ok}
use ateam.Prompts.Assembler.{Match}
use ateam.Prompts.Frontmatter.{Frontmatter, parse_frontmatter}
use ateam.Prompts.Template.Render.{Engine, Vars, render}
use ateam.Prompts.Assemble.{Section, AssembleResult, AssembleOptions}
use ateam.Prompts.Assemble.Files.{Entry}

-- The sections of files with their slots, in order. The text behind the frontmatter is rendered; if
-- white space is all that comes out, the file has no section, else one with this text under its
-- slot, anchor and path.
pub data Makes (e : Engine) (vars : Vars) : List Entry → List Section → Type 0 where
  nothing : Makes e vars [] []
  blank :
      (slot : Bytes) (m : Match) (head : Frontmatter) (body text : Bytes) {es : List Entry}
      {out : List Section}
      → parse_frontmatter m.content ≡ ok (head, body)
      → render e vars body ≡ ok text
      → trim_space text ≡ []
      → Makes e vars es out
      → Makes e vars ((slot, m) ∷ es) out
  section :
      (slot : Bytes) (m : Match) (head : Frontmatter) (body text : Bytes) {es : List Entry}
      {out : List Section}
      → parse_frontmatter m.content ≡ ok (head, body)
      → render e vars body ≡ ok text
      → is_empty (trim_space text) ≡ false
      → Makes e vars es out
      → Makes e vars
          ((slot, m) ∷ es)
          (record { anchor = m.anchor; path = m.path; slot = slot; content = text } ∷ out)

-- The section of a text given on the command line, verbatim, none for a blank text.
abbrev pub Verbatim : Bytes → Bytes → Bytes → List Section → Type 0
Verbatim slot source text out =
    if is_empty (trim_space text)
    then out ≡ []
    else out ≡ record { anchor = codes "cli"; path = source; slot = slot; content = text } ∷ []

-- The sections of a prompt, its options' texts around those of the files.
pub record Parts (e : Engine) (vars : Vars) (opts : AssembleOptions) (es : List Entry)
    (r : AssembleResult) : Type 0 where
  pub front : List Section
  pub made : List Section
  pub back : List Section
  pub opens : Verbatim (codes "cli_pre_prompt") (codes "(--pre-prompt)") opts.pre_prompt front
  pub makes : Makes e vars es made
  pub closes : Verbatim (codes "cli_post_prompt") (codes "(--post-prompt)") opts.post_prompt back
  pub in_order : r.sections ≡ front ++ (made ++ back)
  pub prompt_joined : r.prompt ≡ join (codes "\n\n---\n\n") (map (λ s. s.content) r.sections)
