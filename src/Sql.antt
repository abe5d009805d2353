-- ===== src/Sql.antt =====
-- scanner/sqlscanner/sqlparse.go: the columns that a migration declares.
pub mod Keywords
pub mod Comments
pub mod Lines
pub mod FileScan
pub mod CrossRef
pub mod Drop
use pci_dss_mcp.Common.{
  ℕ, suc, ◌+◌, ◌-◌, Bool, false, ◌&&◌, ◌||◌, not, Option, none, some, List, [], ◌∷◌, ◌++◌, map,
  Text, codes, eq_text, ltb, leb, ◌==◌, if◌then◌else◌, length, take, drop, any, count_by,
}
use pci_dss_mcp.GoStrings.{to_lower, trim_space, contains, is_empty}

pub record Column : Type 0 where
  pub name : Text
  pub sql_type : Text
  pub line : ℕ
  pub table_name : Text

abbrev pub reserved_constraint_keywords : List Text
reserved_constraint_keywords =
    codes "primary"
    ∷ codes "foreign"
    ∷ codes "unique"
    ∷ codes "check"
    ∷ codes "constraint"
    ∷ codes "index"
    ∷ codes "key"
    ∷ codes "exclude"
    ∷ []

abbrev pub line_comment : Text
line_comment = codes "--"

abbrev pub starts_comment : Text → Bool
starts_comment [] = false
starts_comment (c ∷ []) = false
starts_comment (c ∷ d ∷ s) = c == b'-' && d == b'-'

-- `in_comment` says whether the inner loop is running.
unfoldable pub strip_loop : Bool → Text → Text
strip_loop in_comment [] = []
strip_loop in_comment (c ∷ s) =
    let blank = (if in_comment then not (c == 10) else false) || starts_comment (c ∷ s) in
    (if blank then b' ' else c) ∷ strip_loop blank s

unfoldable pub strip_line_comments : Text → Text
unfolding strip_loop
strip_line_comments src = if contains src line_comment then strip_loop false src else src

-- From an index on, at a depth.
unfoldable pub close_loop : ℕ → ℕ → Text → Option ℕ
close_loop depth i [] = none
close_loop depth i (c ∷ s) =
    let rest =
      close_loop (if c == b'(' then depth + 1 else if c == b')' then depth - 1 else depth) (i + 1)
        s in
    if c == b')' && depth == 1 then some i else rest

unfoldable pub find_matching_close : Text → ℕ → Option ℕ
unfolding close_loop
find_matching_close s start = close_loop 1 start (drop start s)

-- `isSpace` of the file; `strings.TrimSpace` also takes vertical tabs and form feeds.
abbrev pub is_space : ℕ → Bool
is_space b = b == b' ' || b == 9 || b == 10 || b == 13

abbrev pub is_ident_byte : ℕ → Bool
is_ident_byte b =
    (leb b'a' b && leb b b'z')
    || (leb b'A' b && leb b b'Z')
    || (leb b'0' b && leb b b'9')
    || b == b'_'

-- How many bytes at the start a test holds for.
unfoldable pub run_of : (ℕ → Bool) → Text → ℕ
run_of p [] = 0
run_of p (c ∷ s) = let rest = run_of p s in if p c then suc rest else 0

unfoldable pub next_token : Text → Text × Text
unfolding run_of
next_token s = let i : ℕ = run_of (λ b. not (is_space b)) s in (take i s, drop i s)

-- The second word of a type of two words.
abbrev pub with_second_word : Text → Text → Text × Text
with_second_word tok rest =
    let j : ℕ = run_of is_space rest in
    let k : ℕ = run_of is_ident_byte (drop j rest) in
    let second : Text = take k (drop j rest) in
    if ltb 0 j
      && ltb 0 k
      && eq_text (to_lower tok) (codes "character")
      && (eq_text (to_lower second) (codes "varying") || eq_text (to_lower second) (codes "large"))
    then (tok ++ b' ' ∷ second, drop (j + k) rest)
    else (tok, rest)

abbrev pub opens_size : Text → Bool
opens_size [] = false
opens_size (c ∷ s) = c == b'('

abbrev pub with_close : Text → Text → ℕ → Option ℕ → Text × Text
with_close tok rest k none = (tok, rest)
with_close tok rest k (some end) = (tok ++ drop k (take (end + 1) rest), drop (end + 1) rest)

-- The size in parentheses.
abbrev pub with_size : Text × Text → Text × Text
with_size (tok, rest) =
    let k : ℕ = run_of is_space rest in
    if opens_size (drop k rest)
    then with_close tok rest k (close_loop 1 (k + 1) (drop (k + 1) rest))
    else (tok, rest)

unfoldable pub next_type_token : Text → Text × Text
unfolding run_of close_loop
next_type_token s =
    let i : ℕ = run_of is_ident_byte s in
    if is_empty s then ([], s) else with_size (with_second_word (take i s) (drop i s))

-- `strings.Trim` of the quotes.
abbrev pub is_quote : ℕ → Bool
is_quote c = c == 96 || c == 34

unfoldable pub trim_quotes_right : Text → Text
trim_quotes_right [] = []
trim_quotes_right (c ∷ s) =
    let rest = trim_quotes_right s in if is_empty rest && is_quote c then [] else c ∷ rest

abbrev pub trim_quotes : Text → Text
trim_quotes s = trim_quotes_right (drop (run_of is_quote s) s)

-- The table's name, which the code sets behind the call, is an argument here.
unfoldable pub parse_column_segment : Text → ℕ → Text → Option Column
unfolding next_token next_type_token run_of trim_quotes_right
parse_column_segment segment line table_name =
    let token : Text × Text = next_token (trim_space segment) in
    if is_empty (trim_space segment)
      || is_empty token.0
      || any (eq_text (to_lower token.0)) reserved_constraint_keywords
    then none
    else some (record {
      name = trim_quotes token.0;
      sql_type = to_lower (trim_space (next_type_token (trim_space token.1)).0);
      line = line;
      table_name = table_name;
    })

abbrev pub newlines : Text → ℕ
newlines s = count_by (λ c. c == 10) s

abbrev pub as_list : Option Column → List Column
as_list none = []
as_list (some c) = c ∷ []

-- The segment of a body between two of its indices.
unfoldable pub flush : Text → ℕ → Text → ℕ → ℕ → List Column
unfolding run_of parse_column_segment
flush body start_line table_name start end =
    let segment : Text = drop start (take end body) in
    let leading : ℕ = run_of is_space segment in
    as_list (
      parse_column_segment segment (start_line + newlines (take (start + leading) body)) table_name)

abbrev pub next_depth : ℕ → ℕ → ℕ
next_depth c depth = if c == b'(' then depth + 1 else if c == b')' then depth - 1 else depth

-- The loop at an index, with what is left of the body there.
unfoldable pub column_loop : Text → ℕ → Text → ℕ → ℕ → ℕ → Text → List Column
unfolding flush
column_loop body start_line table_name depth start i [] =
    if ltb start (length body) then flush body start_line table_name start (length body) else []
column_loop body start_line table_name depth start i (c ∷ s) =
    let comma = c == b',' && depth == 0 in
    (if comma then flush body start_line table_name start i else [])
    ++ column_loop body start_line table_name (next_depth c depth) (if comma then i + 1 else start)
        (i + 1) s

unfoldable pub parse_column_list : Text → ℕ → Text → List Column
unfolding column_loop
parse_column_list body start_line table_name = column_loop body start_line table_name 0 0 0 body

-- What the two regular expressions find in a text: the indices of a match and of its groups.
pub record CreateMatch : Type 0 where
  pub match_end : ℕ
  pub table_start : ℕ
  pub table_end : ℕ

pub record AlterMatch : Type 0 where
  pub match_start : ℕ
  pub table_start : ℕ
  pub table_end : ℕ
  pub name_start : ℕ
  pub name_end : ℕ
  pub type_start : ℕ
  pub type_end : ℕ

abbrev pub slice : Text → ℕ → ℕ → Text
slice s from to = drop from (take to s)

abbrev pub column_list_at : Text → CreateMatch → Option ℕ → List Column
column_list_at clean m none = []
column_list_at clean m (some body_end) =
    parse_column_list (slice clean m.match_end body_end) (1 + newlines (take m.match_end clean))
      (slice clean m.table_start m.table_end)

unfoldable pub create_columns : Text → List CreateMatch → List Column
unfolding parse_column_list find_matching_close
create_columns clean [] = []
create_columns clean (m ∷ matches) =
    column_list_at clean m (find_matching_close clean m.match_end) ++ create_columns clean matches

abbrev pub alter_column : Text → AlterMatch → Column
alter_column clean m = record {
  name = slice clean m.name_start m.name_end;
  sql_type = to_lower (trim_space (slice clean m.type_start m.type_end));
  line = 1 + newlines (take m.match_start clean);
  table_name = slice clean m.table_start m.table_end;
}

-- `create_table_head` and `alter_add_column` are `FindAllStringSubmatchIndex` of the two regular
-- expressions.
module _ (create_table_head : Text → List CreateMatch)
    (alter_add_column : Text → List AlterMatch) where
  unfoldable pub parse_sql_file : Text → List Column
  unfolding create_columns strip_line_comments
  parse_sql_file src =
      let clean = strip_line_comments src in
      create_columns clean (create_table_head clean)
      ++ map (alter_column clean) (alter_add_column clean)
