-- ===== src/Interactive/Commands.antt =====
-- The built-in commands, the completions and the history file's path of mode_interactive.c.
use tcp_client.Base.{
  ℕ, zero, suc, ◌+◌, ◌-◌, Bool, true, false, ◌&&◌, ◌||◌, Option, none, some, List, [], ◌∷◌, ◌++◌,
  Bytes, codes, length, take, leb, ◌==◌, if◌then◌else◌,
}
use tcp_client.Hex.{is_space, skip_spaces}

-- tolower(), in the C locale.
unfoldable pub to_lower : ℕ → ℕ
to_lower c = if leb b'A' c && leb c b'Z' then c + 32 else c

-- strncasecmp(start, cmd, strlen(cmd)) and what stands behind the match, where there is one.
unfoldable pub after_nocase : Bytes → Bytes → Option Bytes
after_nocase [] start = some start
after_nocase (c ∷ cmd) [] = none
after_nocase (c ∷ cmd) (d ∷ start) =
    if to_lower c == to_lower d then after_nocase cmd start else none

unfoldable pub only_blanks : Bytes → Bool
only_blanks [] = true
only_blanks (c ∷ p) = (c == b'\n' || c == b'\r' || is_space c) && only_blanks p

unfoldable pub is_blank_rest : Option Bytes → Bool
is_blank_rest none = false
is_blank_rest (some p) = only_blanks p

-- Neither pointer is NULL.
unfoldable pub is_builtin_command : Bytes → Bytes → Bool
is_builtin_command buf cmd = is_blank_rest (after_nocase cmd (skip_spaces buf))

unfoldable pub is_exit_command : Bytes → Bool
is_exit_command buf = is_builtin_command buf (codes "exit") || is_builtin_command buf (codes "quit")

-- INTERACTIVE_COMPLETIONS
unfoldable pub interactive_completions : List Bytes
interactive_completions =
    codes "exit"
    ∷ codes "quit"
    ∷ codes "help"
    ∷ codes "clear"
    ∷ codes "status"
    ∷ codes "history"
    ∷ codes "NC0000"
    ∷ codes "00 06 30 30 30 30"
    ∷ codes "BA"
    ∷ codes "BB"
    ∷ codes "CA"
    ∷ codes "CB"
    ∷ codes "M0"
    ∷ codes "M2"
    ∷ []

-- strncmp(cmd, prefix, strlen(prefix)) == 0
unfoldable pub starts_with : Bytes → Bytes → Bool
starts_with cmd [] = true
starts_with [] (p ∷ prefix) = false
starts_with (c ∷ cmd) (p ∷ prefix) = c == p && starts_with cmd prefix

unfoldable pub add_matching : Bytes → List Bytes → List Bytes
add_matching prefix [] = []
add_matching prefix (cmd ∷ rest) =
    if length prefix == 0 || starts_with cmd prefix
    then cmd ∷ add_matching prefix rest
    else add_matching prefix rest

-- The strings that the callback adds to the list, which is empty before.
unfoldable pub interactive_completion_callback : Bytes → List Bytes
interactive_completion_callback prefix = add_matching prefix interactive_completions

unfoldable pub default_path : Bytes
default_path = codes "./.tcp_client_history"

-- snprintf(out_path, max_len, …): the text, cut so that it fits with its NUL.
unfoldable pub printed : ℕ → Bytes → Bytes
printed max_len text = take (max_len - 1) text

unfoldable pub path_in : ℕ → Bytes → Bytes
path_in max_len home =
    let path = home ++ codes "/.tcp_client_history" in
    if leb max_len (length path) then printed max_len default_path else printed max_len path

-- The POSIX half; `home` is getenv("HOME"). `none` stands for NULL.
unfoldable pub get_interactive_history_path : Option Bytes → ℕ → Option Bytes
get_interactive_history_path home zero = none
get_interactive_history_path none (suc n) = some (printed (suc n) default_path)
get_interactive_history_path (some []) (suc n) = some (printed (suc n) default_path)
get_interactive_history_path (some (c ∷ home)) (suc n) = some (path_in (suc n) (c ∷ home))
