-- ===== src/Jsonc/Laws.antt =====
-- Theorems on `StripJSONComments` of scanner/secretscanner/jsonc.go: the lines of its output.
use pci_dss_mcp.Common.{
  ℕ, ◌+◌, ◌≤◌, ◌≡◌, Bool, true, false, Option, none, some, [], ◌∷◌, ◌++◌, arith, Text, ◌==◌, ==_iff,
  length, count_by, length-append,
}
use pci_dss_mcp.Jsonc.{
  State, Move, comment_move, written, strip_comments, comma_move, strip_commas,
  strip_trailing_commas, strip_json_comments, closes,
}

abbrev pub newlines : Text → ℕ
newlines = count_by (λ c. c == 10)

newlines-append : (s t : Text) → newlines (s ++ t) ≡ newlines s + newlines t
newlines-append [] t = omega arith
newlines-append (c ∷ s) t = ground (arith, newlines-append s t)

-- What a turn reads: one byte, or two.
abbrev Faithful : {S : Type 0} → ℕ → Option ℕ → Move S → Type 0
Faithful c d (Move.one out st) = (newlines out ≡ newlines (c ∷ [])) × (length out ≤ 1)
Faithful c none (Move.two out st) = (newlines out ≡ newlines (c ∷ [])) × (length out ≤ 1)
Faithful c (some d) (Move.two out st) = (newlines out ≡ newlines (c ∷ d ∷ [])) × (length out ≤ 2)

comment_move-Faithful : (st : State) (c : ℕ) (d : Option ℕ) → Faithful c d (comment_move st c d)
unfolding comment_move
comment_move-Faithful State.normal c none =
    ground (arith, ==_iff c 10, ==_iff c 34, ==_iff c 47, ==_iff c 92, ==_iff c 42)
comment_move-Faithful State.normal c (some d) = ground (
  arith,
  ==_iff c 10,
  ==_iff c 34,
  ==_iff c 47,
  ==_iff c 92,
  ==_iff c 42,
  ==_iff d 10,
  ==_iff d 47,
  ==_iff d 42,
)
comment_move-Faithful State.in_string c none =
    ground (arith, ==_iff c 10, ==_iff c 34, ==_iff c 47, ==_iff c 92, ==_iff c 42)
comment_move-Faithful State.in_string c (some d) = ground (
  arith,
  ==_iff c 10,
  ==_iff c 34,
  ==_iff c 47,
  ==_iff c 92,
  ==_iff c 42,
  ==_iff d 10,
  ==_iff d 47,
  ==_iff d 42,
)
comment_move-Faithful State.line_comment c none =
    ground (arith, ==_iff c 10, ==_iff c 34, ==_iff c 47, ==_iff c 92, ==_iff c 42)
comment_move-Faithful State.line_comment c (some d) = ground (
  arith,
  ==_iff c 10,
  ==_iff c 34,
  ==_iff c 47,
  ==_iff c 92,
  ==_iff c 42,
  ==_iff d 10,
  ==_iff d 47,
  ==_iff d 42,
)
comment_move-Faithful State.block_comment c none =
    ground (arith, ==_iff c 10, ==_iff c 34, ==_iff c 47, ==_iff c 92, ==_iff c 42)
comment_move-Faithful State.block_comment c (some d) = ground (
  arith,
  ==_iff c 10,
  ==_iff c 34,
  ==_iff c 47,
  ==_iff c 92,
  ==_iff c 42,
  ==_iff d 10,
  ==_iff d 47,
  ==_iff d 42,
)

comma_move-Faithful :
    (inside : Bool) (c : ℕ) (d : Option ℕ) (b : Bool) → Faithful c d (comma_move inside c d b)
unfolding comma_move
comma_move-Faithful true c none b = ground (arith, ==_iff c 10, ==_iff c 34, ==_iff c 92)
comma_move-Faithful true c (some d) b = ground (arith, ==_iff c 10, ==_iff c 34, ==_iff c 92)
comma_move-Faithful false c none b = ground (arith, ==_iff c 10, ==_iff c 34, ==_iff c 44)
comma_move-Faithful false c (some d) b = ground (arith, ==_iff c 10, ==_iff c 34, ==_iff c 44)

abbrev pub KeepsLines : Text → Text → Type 0
KeepsLines out data' = (newlines out ≡ newlines data') × (length out ≤ length data')

written-KeepsLines :
    {S : Type 0} (c : ℕ) (m : Move S) → Faithful c none m → KeepsLines (written m) (c ∷ [])
written-KeepsLines c (Move.one out st) h = h
written-KeepsLines c (Move.two out st) h = h

-- A turn, then the rest of the loop.
abbrev turn : {S : Type 0} → ℕ → Text → (S → Text → Text) → Move S → Text
turn d rest loop (Move.one out next) = out ++ loop next (d ∷ rest)
turn d rest loop (Move.two out next) = out ++ loop next rest

turn-KeepsLines :
    {S : Type 0} (c d : ℕ) (rest : Text) (loop : S → Text → Text) (m : Move S)
    → Faithful c (some d) m
    → ((st : S) → KeepsLines (loop st (d ∷ rest)) (d ∷ rest))
    → ((st : S) → KeepsLines (loop st rest) rest)
    → KeepsLines (turn d rest loop m) (c ∷ d ∷ rest)
turn-KeepsLines c d rest loop (Move.one out next) h longer shorter =
    let l = longer next in
    ground (
      arith,
      h,
      l,
      newlines-append out (loop next (d ∷ rest)),
      length-append out (loop next (d ∷ rest)),
    )
turn-KeepsLines c d rest loop (Move.two out next) h longer shorter =
    let l = shorter next in
    ground (arith, h, l, newlines-append out (loop next rest), length-append out (loop next rest))

strip_comments-KeepsLines : (data' : Text) (st : State) → KeepsLines (strip_comments st data') data'
unfolding strip_comments
strip_comments-KeepsLines [] st = ground arith
strip_comments-KeepsLines (c ∷ []) st =
    written-KeepsLines c (comment_move st c none) (comment_move-Faithful st c none)
strip_comments-KeepsLines (c ∷ d ∷ rest) st =
    turn-KeepsLines c d rest strip_comments (comment_move st c (some d))
      (comment_move-Faithful st c (some d)) (strip_comments-KeepsLines (d ∷ rest))
      (strip_comments-KeepsLines rest)

strip_commas-KeepsLines :
    (data' : Text) (inside : Bool) → KeepsLines (strip_commas inside data') data'
unfolding strip_commas
strip_commas-KeepsLines [] inside = ground arith
strip_commas-KeepsLines (c ∷ []) inside =
    written-KeepsLines c (comma_move inside c none false) (comma_move-Faithful inside c none false)
strip_commas-KeepsLines (c ∷ d ∷ rest) inside =
    turn-KeepsLines c d rest strip_commas (comma_move inside c (some d) (closes (d ∷ rest)))
      (comma_move-Faithful inside c (some d) (closes (d ∷ rest)))
      (strip_commas-KeepsLines (d ∷ rest)) (strip_commas-KeepsLines rest)

-- Removing the comments and the trailing commas of a text keeps its number of line feeds and makes it
-- no longer.
pub strip_json_comments-KeepsLines :
    (data' : Text)
    → (newlines (strip_json_comments data') ≡ newlines data')
      × (length (strip_json_comments data') ≤ length data')
unfolding strip_json_comments strip_trailing_commas
strip_json_comments-KeepsLines data' =
    let first = strip_comments-KeepsLines data' State.normal in
    let second = strip_commas-KeepsLines (strip_comments State.normal data') false in
    ground (arith, first, second)
