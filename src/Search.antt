-- ===== src/Search.antt =====
-- src/search.rs: the lines that fzf is given, and the command of the line that it returns.
use rustory.Prelude.{
  ℕ, Text, Bool, Option, none, some, List, [], ◌∷◌, ◌++◌, map, is_empty, if◌then◌else◌, ◌==◌, ◌||◌,
}
use rustory.Prelude.Words.{drop_back, split_once}
use rustory.Core.{Entry}

unfoldable pub is_line_end : ℕ → Bool
is_line_end c = (c == 10) || (c == 13)

-- value.replace(['\n', '\r'], " ")
unfoldable pub sanitize_one_line : Text → Text
unfolding is_line_end
sanitize_one_line [] = []
sanitize_one_line (c ∷ t) = (if is_line_end c then 32 else c) ∷ sanitize_one_line t

unfoldable pub format_fzf_line : {T : Type 0} → Entry T → Text
format_fzf_line e = e.entry_id ++ 9 ∷ sanitize_one_line e.cmd

unfoldable pub format_fzf_lines : {T : Type 0} → List (Entry T) → List Text
format_fzf_lines entries = map format_fzf_line entries

abbrev pub non_empty : Text → Option Text
non_empty [] = none
non_empty (c ∷ t) = some (c ∷ t)

-- The part behind the first tab, or the whole line.
abbrev command_of : Text → Option (Text × Text) → Text
command_of line none = line
command_of line (some (id, cmd)) = cmd

unfoldable pub parse_selected_cmd : Text → Option Text
unfolding is_line_end
parse_selected_cmd selected_line =
    let line = drop_back is_line_end selected_line in
    if is_empty line then none else non_empty (command_of line (split_once 9 line))
