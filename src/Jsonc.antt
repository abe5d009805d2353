-- ===== src/Jsonc.antt =====
-- scanner/secretscanner/jsonc.go: `StripJSONComments`, with its two passes.
pub mod Laws
use pci_dss_mcp.Common.{
  ℕ, ◌≡◌, refl, Bool, true, false, ◌&&◌, ◌||◌, Option, none, some, [], ◌∷◌, ◌++◌, Text, codes, ◌==◌,
  if◌then◌else◌, is_some,
}

pub data State : Type 0 where
  normal in_string line_comment block_comment : State

-- What one turn of the loop does: the bytes it writes, the next state, and one or two bytes read.
pub data Move (S : Type 0) : Type 0 where
  one two : Text → S → Move S

-- `i+1 < n && data[i+1] == b`.
abbrev pub is_byte : ℕ → Option ℕ → Bool
is_byte b none = false
is_byte b (some d) = d == b

abbrev pub copy_both : {S : Type 0} → ℕ → Option ℕ → S → Move S
copy_both c none st = Move.one (c ∷ []) st
copy_both c (some d) st = Move.two (c ∷ d ∷ []) st

unfoldable pub comment_move : State → ℕ → Option ℕ → Move State
comment_move State.normal c d =
    if c == 34
    then Move.one (c ∷ []) State.in_string
    else if c == 47 && is_byte 47 d
    then Move.two [] State.line_comment
    else if c == 47 && is_byte 42 d
    then Move.two [] State.block_comment
    else Move.one (c ∷ []) State.normal
comment_move State.in_string c d =
    if c == 92 && is_some d
    then copy_both c d State.in_string
    else if c == 34
    then Move.one (c ∷ []) State.normal
    else Move.one (c ∷ []) State.in_string
comment_move State.line_comment c d =
    if c == 10 then Move.one (10 ∷ []) State.normal else Move.one [] State.line_comment
comment_move State.block_comment c d =
    if c == 42 && is_byte 47 d
    then Move.two [] State.normal
    else if c == 10
    then Move.one (10 ∷ []) State.block_comment
    else Move.one [] State.block_comment

abbrev pub written : {S : Type 0} → Move S → Text
written (Move.one out st) = out
written (Move.two out st) = out

-- The first pass.
unfoldable pub strip_comments : State → Text → Text
strip_comments st [] = []
strip_comments st (c ∷ []) = written (comment_move st c none)
strip_comments st (c ∷ d ∷ rest) = elim (comment_move st c (some d)) [
  | Move.one out next ↦ out ++ strip_comments next (d ∷ rest)
  | Move.two out next ↦ out ++ strip_comments next rest
]

unfoldable pub is_json_whitespace : ℕ → Bool
is_json_whitespace b = b == 32 || b == 9 || b == 10 || b == 13

-- Whether the next byte that is not white space is `}` or `]`.
unfoldable pub closes : Text → Bool
unfolding is_json_whitespace
closes [] = false
closes (c ∷ rest) =
    let later = closes rest in if is_json_whitespace c then later else c == 125 || c == 93

unfoldable pub comma_move : Bool → ℕ → Option ℕ → Bool → Move Bool
comma_move false c d before_close =
    if c == 34
    then Move.one (c ∷ []) true
    else if c == 44 && before_close
    then Move.one [] false
    else Move.one (c ∷ []) false
comma_move true c d before_close =
    if c == 92 && is_some d
    then copy_both c d true
    else if c == 34
    then Move.one (c ∷ []) false
    else Move.one (c ∷ []) true

-- The second pass.
unfoldable pub strip_commas : Bool → Text → Text
strip_commas inside [] = []
strip_commas inside (c ∷ []) = written (comma_move inside c none false)
strip_commas inside (c ∷ d ∷ rest) = elim (comma_move inside c (some d) (closes (d ∷ rest))) [
  | Move.one out next ↦ out ++ strip_commas next (d ∷ rest)
  | Move.two out next ↦ out ++ strip_commas next rest
]

unfoldable pub strip_trailing_commas : Text → Text
unfolding strip_commas
strip_trailing_commas data' = strip_commas false data'

unfoldable pub strip_json_comments : Text → Text
unfolding strip_comments strip_trailing_commas
strip_json_comments data' = strip_trailing_commas (strip_comments State.normal data')

strip_test : strip_json_comments (codes "[1, // \"x\"\n2,/*\n*/ ]") ≡ codes "[1, \n2\n ]"
unfolding strip_json_comments strip_comments strip_commas strip_trailing_commas comment_move
    comma_move closes is_json_whitespace
strip_test = refl
