-- ===== src/FilePath.antt =====
-- The functions of Go's package `path/filepath` that the program calls, on a system whose separator
-- is a slash.
pub mod Glob
unfoldable pub use Glob.{match}
use pci_dss_mcp.Common.{
  ℕ, Bool, true, false, ◌&&◌, ◌||◌, List, [], ◌∷◌, ◌++◌, map, Option, none, some, Text, codes,
  eq_text, ◌==◌, if◌then◌else◌, any, ◌≡◌, refl,
}
use pci_dss_mcp.GoStrings.{has_prefix, split, join, is_empty}

abbrev pub slash : ℕ
slash = b'/'

-- `ToSlash` changes nothing where the separator is a slash.
abbrev pub to_slash : Text → Text
to_slash path = path

unfoldable pub is_abs : Text → Bool
is_abs [] = false
is_abs (c ∷ _) = c == slash

unfoldable pub strip_slashes : Text → Text
strip_slashes [] = []
strip_slashes (c ∷ s) =
    let rest = strip_slashes s in if c == slash && is_empty rest then [] else c ∷ rest

unfoldable pub after_last_slash : Text → Text
after_last_slash [] = []
after_last_slash (c ∷ s) =
    let deeper = after_last_slash s in if any (λ d. d == slash) (c ∷ s) then deeper else c ∷ s

abbrev or_else : Text → Text → Text
or_else [] other = other
or_else (c ∷ s) other = c ∷ s

unfoldable pub base : Text → Text
unfolding strip_slashes after_last_slash
base [] = codes "."
base (c ∷ s) = or_else (after_last_slash (strip_slashes (c ∷ s))) (codes "/")

unfoldable pub from_last_dot : Text → Text
from_last_dot [] = []
from_last_dot (c ∷ s) = or_else (from_last_dot s) (if c == b'.' then c ∷ s else [])

unfoldable pub ext : Text → Text
unfolding after_last_slash from_last_dot
ext path = from_last_dot (after_last_slash path)

-- The segments of `Clean(path)`: `done` holds those that stand already, the last one first.
unfoldable pub clean_segments : Bool → List Text → List Text → List Text
clean_segments rooted [] done = done
clean_segments rooted (seg ∷ segs) done = clean_segments rooted segs (
    if is_empty seg || eq_text seg (codes ".")
    then done
    else if eq_text seg (codes "..")
    then go_up done
    else seg ∷ done)
  where
    go_up : List Text → List Text
    go_up [] = if rooted then [] else codes ".." ∷ []
    go_up (top ∷ below) = if eq_text top (codes "..") then codes ".." ∷ top ∷ below else below

abbrev reversed_onto : List Text → List Text → List Text
reversed_onto [] ys = ys
reversed_onto (x ∷ xs) ys = reversed_onto xs (x ∷ ys)

unfoldable pub segments : Text → List Text
unfolding clean_segments split is_abs eq_text
segments path = reversed_onto (clean_segments (is_abs path) (split path slash) []) []

-- `Clean`, by the segments.
abbrev rooted_text : Bool → List Text → Text
rooted_text true segs = slash ∷ join segs (codes "/")
rooted_text false segs = or_else (join segs (codes "/")) (codes ".")

unfoldable pub clean : Text → Text
unfolding segments join is_abs
clean path = rooted_text (is_abs path) (segments path)

unfoldable pub up_to_last_slash : Text → Text
up_to_last_slash [] = []
up_to_last_slash (c ∷ s) =
    let rest = up_to_last_slash s in
    if c == slash then c ∷ rest else if is_empty rest then [] else c ∷ rest

unfoldable pub dir : Text → Text
unfolding clean up_to_last_slash
dir path = clean (up_to_last_slash path)

-- `Join` of two elements; an empty one is left out.
unfoldable pub join_path : Text → Text → Text
unfolding clean
join_path [] name = if is_empty name then [] else clean name
join_path (c ∷ folder) name =
    if is_empty name then clean (c ∷ folder) else clean (c ∷ folder ++ slash ∷ name)

-- What is left of two paths behind their common segments.
unfoldable pub diverge : List Text → List Text → List Text × List Text
diverge [] ts = ([], ts)
diverge (b ∷ bs) [] = (b ∷ bs, [])
diverge (b ∷ bs) (t ∷ ts) =
    let deeper = diverge bs ts in if eq_text b t then deeper else (b ∷ bs, t ∷ ts)

abbrev climb : List Text → Text → Option Text
climb [] down = some (or_else down (codes "."))
climb (b ∷ bs) down =
    if eq_text b (codes "..")
    then none
    else some (
        join (map (λ _. codes "..") (b ∷ bs) ++ (if is_empty down then [] else down ∷ []))
          (codes "/"))

-- `Rel`; an error is `none`.
unfoldable pub rel : Text → Text → Option Text
unfolding segments diverge join is_abs
rel root path =
    let (up, down) = diverge (segments root) (segments path) in
    if is_abs root && is_abs path || not_abs root && not_abs path
    then climb up (join down (codes "/"))
    else none
  where
    not_abs : Text → Bool
    not_abs p = if is_abs p then false else true

-- The path that the program matches and shows: relative to the root, if it is absolute and `Rel`
-- succeeds.
abbrev pub or_self : Option Text → Text → Text
or_self none path = path
or_self (some r) path = r

base_test : base (codes "a/b.go/") ≡ codes "b.go"
unfolding base
base_test = refl

ext_test : ext (codes "a.b/c.env.dev") ≡ codes ".dev"
unfolding ext
ext_test = refl

dir_test : dir (codes "/a/./b/c.sql") ≡ codes "/a/b"
unfolding dir eq_text
dir_test = refl

rel_test : rel (codes "/tmp/x/../y") (codes "/tmp/y/dev/a.go") ≡ some (codes "dev/a.go")
unfolding rel eq_text
rel_test = refl

rel_up_test : rel (codes "/tmp/y") (codes "/tmp/z") ≡ some (codes "../z")
unfolding rel eq_text
rel_up_test = refl
