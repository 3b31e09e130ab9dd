-- ===== src/Codex/Delivery.antt =====
-- How internal/codex/adapter.go hands a prompt to Codex, and the names of a run's session.
use ateam.Prelude.{
  ℕ, suc, Bool, true, false, ◌&&◌, List, [], ◌∷◌, ◌++◌, Bytes, codes, leb, length, is_empty,
  has_prefix, contains, fields, decimal, split, trim_right, trim_space, ◌==◌, if◌then◌else◌,
}
use ateam.Prelude.FilePath.{join_path}
use ateam.Prelude.Int.{ℤ, pos, negsuc}

pub record PromptDelivery : Type 0 where
  pub sent_text : Bytes
  pub echo_marker : Bytes
  pub is_slash_command : Bool
  pub followup_steps : List (List Bytes)

-- `%d`
abbrev pub decimal_of : ℤ → Bytes
decimal_of (pos n) = decimal n
decimal_of (negsuc n) = b'-' ∷ decimal (suc n)

-- `SessionLogMarker`
unfoldable pub session_log_marker : ℤ → Bytes
unfolding decimal
session_log_marker (pos (suc n)) = codes "[ateam-exec-" ++ (decimal (suc n) ++ codes "]")
session_log_marker _ = []

-- `newSentinel`, with the random one.
unfoldable pub new_sentinel : Bytes → ℤ → Bytes
unfolding session_log_marker
new_sentinel random (pos (suc n)) = session_log_marker (pos (suc n))
new_sentinel random _ = random

steps : List Bytes → List (List Bytes)
unfolding trim_space fields
steps [] = []
steps (l ∷ ls) =
    let rest = steps ls in if is_empty (trim_space l) then rest else fields (trim_space l) ∷ rest

abbrev slash_command : Bytes → List Bytes → PromptDelivery
slash_command first later = record {
  sent_text = first;
  echo_marker = first;
  is_slash_command = true;
  followup_steps = steps later;
}

abbrev free_form : Bytes → Bytes → PromptDelivery
free_form prompt sentinel = record {
  sent_text = prompt ++ (b'\n' ∷ sentinel);
  echo_marker = sentinel;
  is_slash_command = false;
  followup_steps = [];
}

-- The lines of a prompt that begins with a slash, and what is sent otherwise.
abbrev of_lines : List Bytes → PromptDelivery → PromptDelivery
of_lines [] otherwise = otherwise
of_lines (l ∷ ls) otherwise =
    let first = trim_space (trim_right (λ c. c == b'\r') l) in
    if has_prefix first (codes "/") then slash_command first ls else otherwise

-- `preparePrompt`
unfoldable pub prepare_prompt : Bytes → Bytes → ℤ → PromptDelivery
unfolding steps new_sentinel split trim_space trim_right has_prefix
prepare_prompt random prompt exec_id =
    let otherwise = free_form prompt (new_sentinel random exec_id) in
    if has_prefix (trim_space prompt) (codes "/")
    then of_lines (split b'\n' prompt) otherwise
    else otherwise

-- `SessionName`
unfoldable pub session_name : ℤ → Bytes
unfolding decimal
session_name exec_id = codes "ateam-codex-" ++ decimal_of exec_id

abbrev pub sun_path_safe_max : ℕ
sun_path_safe_max = 100

-- `SocketPath`, with the first four bytes of SHA-256 in hex.
unfoldable pub socket_path : (Bytes → Bytes) → Bytes → ℤ → Bytes
unfolding join_path decimal
socket_path digest project_dir exec_id =
    let own = join_path (
      project_dir
      ∷ codes "cache"
      ∷ codes "tmux"
      ∷ (codes "exec-" ++ (decimal_of exec_id ++ codes ".sock"))
      ∷ []) in
    if leb (length own) sun_path_safe_max
    then own
    else join_path (
        codes "/tmp"
        ∷ (codes "ateam-codex-" ++ (digest own ++ (b'-' ∷ (decimal_of exec_id ++ codes ".sock"))))
        ∷ [])

-- The dialogs that Codex may show at its start, and the keys that end them.
abbrev codex_update_choices : Bytes → Bool
codex_update_choices s =
    contains s (codes "Update available!")
    && contains s (codes "Update now")
    && contains s (codes "Skip")

abbrev codex_update_prompt : Bytes → Bool
codex_update_prompt s =
    contains s (codes "Update available!") && contains s (codes "Press enter to continue")

abbrev codex_press_enter_dialog : Bytes → Bool
codex_press_enter_dialog s = contains s (codes "Press enter to continue")

abbrev codex_trust_dialog : Bytes → Bool
codex_trust_dialog s =
    if contains s (codes "Do you trust the contents of this directory?")
    then true
    else contains s (codes "trust this folder")

pub data Sending : Type 0 where
  literal keys : Bytes → Sending

-- What `dismissStartupDialog` sends, in its order; nothing without a dialog.
unfoldable pub dismissal : Bytes → List Sending
unfolding contains
dismissal s =
    if codex_update_choices s
    then literal (codes "2") ∷ (keys (codes "Enter") ∷ [])
    else if codex_update_prompt s
    then keys (codes "Enter") ∷ []
    else if codex_press_enter_dialog s
    then keys (codes "Enter") ∷ []
    else if codex_trust_dialog s
    then keys (codes "Enter") ∷ []
    else []

-- `tmuxCommandExited`
unfoldable pub tmux_command_exited : Bytes → Bool
unfolding contains
tmux_command_exited s = contains s (codes "[ateam tmux command exited ")
