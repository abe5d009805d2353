-- ===== src/Sql/Lines.antt =====
-- Theorems on `findMatchingClose` and on the lines of `ParseSQLFile`.
use pci_dss_mcp.Common.{
  ℕ, zero, suc, ◌+◌, ◌≤◌, ◌<◌, ◌≡◌, sym, ap, ◌∙◌, inl, inr, false, ◌&&◌, Option, none, some, List,
  [], ◌∷◌, ◌++◌, map, arith, Text, ltb, ◌==◌, Bool-cases, length, get_elem?, take, drop, count_by,
  take-append-drop, take_all, All,
}
use pci_dss_mcp.Sql.{
  Column, line_comment, strip_line_comments, close_loop, find_matching_close, parse_column_segment,
  newlines, as_list, flush, next_depth, column_loop, parse_column_list, CreateMatch, AlterMatch,
  slice, column_list_at, create_columns, alter_column, parse_sql_file,
}
use pci_dss_mcp.GoStrings.{contains}
use pci_dss_mcp.Sql.Comments.{Blanks, strip_line_comments_lem}

newlines-append : (s t : Text) → newlines (s ++ t) ≡ newlines s + newlines t
newlines-append [] t = omega arith
newlines-append (c ∷ s) t = omega (arith, newlines-append s t)

newlines-take-drop : (n : ℕ) (s : Text) → newlines (take n s) + newlines (drop n s) ≡ newlines s
newlines-take-drop n s =
    sym (newlines-append (take n s) (drop n s)) ∙ ap newlines (take-append-drop n s)

newlines-take_le : (n : ℕ) (s : Text) → newlines (take n s) ≤ newlines s
newlines-take_le n s = omega (arith, newlines-take-drop n s)

newlines-take_mono : (m n : ℕ) (s : Text) → m ≤ n → newlines (take m s) ≤ newlines (take n s)
newlines-take_mono zero n s h = omega arith
newlines-take_mono (suc m) zero s h = absurd (omega arith)
newlines-take_mono (suc m) (suc n) [] h = omega arith
newlines-take_mono (suc m) (suc n) (c ∷ s) h = omega (arith, newlines-take_mono m n s (omega arith))

-- The part from `a` to `e` and what stands before it hold no more newlines than the whole text.
newlines-slice :
    (s : Text) (a e n : ℕ) → newlines (take a s) + newlines (take n (slice s a e)) ≤ newlines s
newlines-slice s zero e n = omega (arith, newlines-take_le n (take e s), newlines-take_le e s)
newlines-slice s (suc a) zero n = omega (arith, newlines-take_le n [], newlines-take_le (suc a) s)
newlines-slice [] (suc a) (suc e) n = omega (arith, newlines-take_le n [])
newlines-slice (c ∷ s) (suc a) (suc e) n = omega (arith, newlines-slice s a e n)

newlines-strip_line_comments : (src : Text) → newlines (strip_line_comments src) ≡ newlines src
newlines-strip_line_comments src = whole (strip_line_comments src) (strip_line_comments_lem src)
  where
    whole :
        (t : Text)
        → Blanks src t
          × (length t ≡ length src)
          × ((n : ℕ) → newlines (take n t) ≡ newlines (take n src))
          × (contains t line_comment ≡ false)
        → newlines t ≡ newlines src
    whole t (b, e, same, k) =
        ap newlines (sym (take_all (length t) t (omega arith)))
        ∙ (same (length t) ∙ ap newlines (take_all (length t) src (omega arith)))

abbrev LinesFrom : ℕ → ℕ → List Column → Type 0
LinesFrom low high cols = All (λ c. (low ≤ c.line) × (c.line ≤ high)) cols

append-LinesFrom :
    (low high : ℕ) (xs ys : List Column)
    → LinesFrom low high xs
    → LinesFrom low high ys
    → LinesFrom low high (xs ++ ys)
append-LinesFrom low high [] ys h k = k
append-LinesFrom low high (x ∷ xs) ys (e, h) k = (e, append-LinesFrom low high xs ys h k)

weaken-LinesFrom :
    (low high low' high' : ℕ) (xs : List Column)
    → low' ≤ low
    → high ≤ high'
    → LinesFrom low high xs
    → LinesFrom low' high' xs
weaken-LinesFrom low high low' high' [] l g h = tt
weaken-LinesFrom low high low' high' (x ∷ xs) l g ((e, f), h) =
    ((omega arith, omega arith), weaken-LinesFrom low high low' high' xs l g h)

line-parse_column_segment :
    (segment table_name : Text) (line : ℕ)
    → LinesFrom line line (as_list (parse_column_segment segment line table_name))
unfolding parse_column_segment
line-parse_column_segment segment table_name line = ground arith

flush-LinesFrom :
    (body table_name : Text) (start_line start end : ℕ)
    → LinesFrom start_line (start_line + newlines body) (flush body start_line table_name start end)
unfolding flush
flush-LinesFrom body table_name start_line start end =
    weaken-LinesFrom _ _ _ _ _ (omega arith) (omega (arith, newlines-take_le _ body))
      (line-parse_column_segment _ table_name _)

column_loop-LinesFrom :
    (s body table_name : Text) (start_line depth start i : ℕ)
    → LinesFrom start_line
        (start_line + newlines body)
        (column_loop body start_line table_name depth start i s)
unfolding column_loop
column_loop-LinesFrom [] body table_name start_line depth start i =
    elim (Bool-cases (ltb start (length body))) [
      | inl e ↦ rw e (flush-LinesFrom body table_name start_line start (length body))
      | inr e ↦ rw e tt
    ]
column_loop-LinesFrom (c ∷ s) body table_name start_line depth start i =
    elim (Bool-cases (c == b',' && depth == 0)) [
      | inl e ↦ rw e (
          append-LinesFrom _ _ _ _ (flush-LinesFrom body table_name start_line start i) (
            column_loop-LinesFrom s body table_name start_line (next_depth c depth) (i + 1)
              (i + 1)))
      | inr e ↦
          rw e
            (column_loop-LinesFrom s body table_name start_line (next_depth c depth) start (i + 1))
    ]

column_list_at-LinesFrom :
    (clean : Text) (m : CreateMatch) (close : Option ℕ)
    → LinesFrom 1 (1 + newlines clean) (column_list_at clean m close)
unfolding parse_column_list
column_list_at-LinesFrom clean m none = tt
column_list_at-LinesFrom clean m (some e) =
    weaken-LinesFrom _ _ _ _ _ (omega arith)
      (omega (
        arith,
        newlines-slice clean m.match_end e (length (slice clean m.match_end e)),
        ap newlines (
            take_all (length (slice clean m.match_end e)) (slice clean m.match_end e)
              (omega arith)),
      ))
      (column_loop-LinesFrom (slice clean m.match_end e) (slice clean m.match_end e) _
        (1 + newlines (take m.match_end clean)) 0 0 0)

create_columns-LinesFrom :
    (clean : Text) (matches : List CreateMatch)
    → LinesFrom 1 (1 + newlines clean) (create_columns clean matches)
unfolding create_columns
create_columns-LinesFrom clean [] = tt
create_columns-LinesFrom clean (m ∷ matches) =
    append-LinesFrom _ _ _ _
      (column_list_at-LinesFrom clean m (find_matching_close clean m.match_end))
      (create_columns-LinesFrom clean matches)

alter_columns-LinesFrom :
    (clean : Text) (matches : List AlterMatch)
    → LinesFrom 1 (1 + newlines clean) (map (alter_column clean) matches)
alter_columns-LinesFrom clean [] = tt
alter_columns-LinesFrom clean (m ∷ matches) = (
  (omega arith, omega (arith, newlines-take_le m.match_start clean)),
  alter_columns-LinesFrom clean matches,
)

-- Whatever the two regular expressions find, each column that is reported stands on a line of the
-- file: its number is at least 1 and at most one more than the newlines of the source.
pub parse_sql_file_lem :
    (create_table_head : Text → List CreateMatch) (alter_add_column : Text → List AlterMatch)
    (src : Text)
    → All
        (λ (c : Column). (1 ≤ c.line) × (c.line ≤ 1 + newlines src))
        (parse_sql_file create_table_head alter_add_column src)
unfolding parse_sql_file
parse_sql_file_lem create_table_head alter_add_column src =
    let clean : Text = strip_line_comments src in
    weaken-LinesFrom 1 (1 + newlines clean) 1 _ _ (omega arith)
      (omega (arith, newlines-strip_line_comments src))
      (append-LinesFrom 1 (1 + newlines clean) (create_columns clean (create_table_head clean)) _
        (create_columns-LinesFrom clean (create_table_head clean))
        (alter_columns-LinesFrom clean (alter_add_column clean)))

abbrev pub opens : Text → ℕ
opens s = count_by (λ c. c == b'(') s

abbrev pub closes : Text → ℕ
closes s = count_by (λ c. c == b')') s

-- At each index up to `k` there are fewer closing parentheses than opening ones and `depth`.
abbrev pub Inside : ℕ → Text → ℕ → Type 0
Inside depth s k = (n : ℕ) → n ≤ k → closes (take n s) < depth + opens (take n s)

abbrev pub CloseContract : ℕ → ℕ → Text → Option ℕ → Type 0
CloseContract depth i s none = (n : ℕ) → closes (take n s) < depth + opens (take n s)
CloseContract depth i s (some e) =
    (k : ℕ) × (e ≡ i + k)
    × (get_elem? s k ≡ some b')')
    × (closes (take k s) + 1 ≡ depth + opens (take k s))
    × Inside depth s k

close_loop-CloseContract :
    (s : Text) (depth i : ℕ) → 0 < depth → CloseContract depth i s (close_loop depth i s)
unfolding close_loop
close_loop-CloseContract [] depth i h = λ n. nothing n
  where
    nothing : (n : ℕ) → closes (take n []) < depth + opens (take n [])
    nothing zero = omega arith
    nothing (suc n) = omega arith
close_loop-CloseContract (c ∷ s) depth i h = elim (Bool-cases (c == b')' && depth == 1)) [
  | inl e ↦ rw e (0, omega arith, ground arith, ground arith, inside)
  | inr e ↦ rw e (
      step (close_loop (next_depth c depth) (i + 1) s)
        (close_loop-CloseContract s (next_depth c depth) (i + 1) (ground arith)))
]
  where
    inside : Inside depth (c ∷ s) 0
    inside zero k = omega arith
    inside (suc n) k = absurd (omega arith)

    outer :
        (n : ℕ)
        → closes (take n s) < next_depth c depth + opens (take n s)
        → closes (take (suc n) (c ∷ s)) < depth + opens (take (suc n) (c ∷ s))
    outer n k = ground arith

    step :
        (r : Option ℕ)
        → CloseContract (next_depth c depth) (i + 1) s r
        → CloseContract depth i (c ∷ s) r
    step none k = every
      where
        every : (n : ℕ) → closes (take n (c ∷ s)) < depth + opens (take n (c ∷ s))
        every zero = omega arith
        every (suc n) = outer n (k n)
    step (some e) (k, at, found, balance, under) = (suc k, omega arith, found, ground arith, every)
      where
        every : Inside depth (c ∷ s) (suc k)
        every zero l = omega arith
        every (suc n) l = outer n (under n (omega arith))

-- The index that is found is that of a closing parenthesis, the text from the start up to it holds
-- as many closing as opening parentheses, and no part of it from the start holds more closing ones.
-- Where none is found, no part of the text from the start does.
pub find_matching_close_lem :
    (s : Text) (start : ℕ) → CloseContract 1 start (drop start s) (find_matching_close s start)
unfolding find_matching_close
find_matching_close_lem s start = close_loop-CloseContract (drop start s) 1 start (omega arith)
