-- ===== src/Secrets/Env.antt =====
-- scanner/secretscanner/env.go: the keys and values of an environment file.
pub mod Space
pub mod RoundTrip
use pci_dss_mcp.Common.{
  ℕ, ◌+◌, ◌-◌, Bool, false, ◌&&◌, ◌||◌, Option, none, some, List, [], ◌∷◌, ◌++◌, map, Text, codes,
  leb, ◌==◌, if◌then◌else◌, length, take, drop,
}
use pci_dss_mcp.GoStrings.{prepend, has_prefix, trim_prefix, index, is_empty}
use pci_dss_mcp.Secrets.{KeyValue}
use pci_dss_mcp.Secrets.Env.Space.{trim_space}

unfoldable pub last_is : ℕ → Text → Bool
last_is quote_mark [] = false
last_is quote_mark (c ∷ []) = c == quote_mark
last_is quote_mark (c ∷ d ∷ s) = last_is quote_mark (d ∷ s)

-- The text without its first and last byte, if both are the mark.
abbrev is_quoted_by : ℕ → Text → Bool
is_quoted_by quote_mark [] = false
is_quoted_by quote_mark (c ∷ s) = c == quote_mark && last_is quote_mark s

unfoldable pub strip_quotes : Text → Text
unfolding last_is
strip_quotes s =
    if leb 2 (length s) && (is_quoted_by 34 s || is_quoted_by 39 s)
    then take (length s - 2) (drop 1 s)
    else s

unfoldable pub without_export : Text → Text
unfolding has_prefix trim_prefix trim_space
without_export trimmed =
    if has_prefix trimmed (codes "export ")
    then trim_space (trim_prefix trimmed (codes "export "))
    else trimmed

abbrev pub non_empty_value : Text → Text → Option (Text × Text)
non_empty_value key value = if is_empty value then none else some (key, value)

abbrev pub split_at_index : Text → Option ℕ → Option (Text × Text)
split_at_index s none = none
split_at_index s (some i) =
    non_empty_value (trim_space (take i s)) (strip_quotes (trim_space (drop (i + 1) s)))

-- The key and the value of a line, `none` where the loop goes on.
unfoldable pub parse_env_line : Text → Option (Text × Text)
unfolding trim_space has_prefix without_export index strip_quotes
parse_env_line line =
    if is_empty (trim_space line) || has_prefix (trim_space line) (codes "#")
    then none
    else split_at_index (without_export (trim_space line))
        (index (without_export (trim_space line)) (codes "="))

abbrev pub env_key_value : Text → ℕ → Option (Text × Text) → List KeyValue
env_key_value path line none = []
env_key_value path line (some (k, v)) =
    record { key = k; value = v; line = line; file_path = path } ∷ []

unfoldable pub env_loop : Text → ℕ → List Text → List KeyValue
unfolding parse_env_line
env_loop path line_num [] = []
env_loop path line_num (line ∷ lines) =
    env_key_value path (line_num + 1) (parse_env_line line) ++ env_loop path (line_num + 1) lines

-- The lines that `bufio.ScanLines` makes: without the line feeds and a carriage return before one.
unfoldable pub split_lines : Text → List Text
split_lines [] = []
split_lines (c ∷ s) = let rest = split_lines s in if c == 10 then [] ∷ rest else prepend c rest

unfoldable pub drop_return : Text → Text
unfolding last_is
drop_return line = if last_is 13 line then take (length line - 1) line else line

abbrev pub scan_lines : Text → List Text
scan_lines contents = map drop_return (split_lines contents)

-- `none` is an error of opening the file or of reading it, such as a line that is too long.
unfoldable pub parse_env_file : Text → Option Text → Option (List KeyValue)
unfolding env_loop split_lines drop_return
parse_env_file path none = none
parse_env_file path (some contents) = some (env_loop path 0 (scan_lines contents))
