-- ===== src/Secrets/Env/RoundTrip.antt =====
-- Theorems on `ParseEnvFile`: a file that is written is read back.
use pci_dss_mcp.Common.{
  ℕ, suc, ◌+◌, ◌-◌, ◌≡◌, refl, sym, ap, ◌∙◌, ◌⊎◌, inl, inr, Bool, true, false, ◌&&◌, ◌||◌, not,
  none, some, List, [], ◌∷◌, ◌++◌, append_assoc, arith, Text, codes, ltb, leb, ◌==◌, if◌then◌else◌,
  Bool-cases, length, any, length-append, any-append, All, drop-append_suc, take-append_length,
}
use native.Mathlib.Numerals.{add-one}
use pci_dss_mcp.GoStrings.{has_prefix, index, is_empty, is_space}
use pci_dss_mcp.Secrets.{KeyValue}
use pci_dss_mcp.Secrets.Env.Space.{
  trim_left, trim_right, trim_space, is_plain, trim_left_plain, trim_right_end,
}
use pci_dss_mcp.Secrets.Env.{
  last_is, strip_quotes, without_export, split_at_index, parse_env_line, split_lines, drop_return,
  scan_lines, env_loop, parse_env_file,
}

-- A byte of a key: ASCII, no white space, no equals sign and no number sign.
abbrev pub is_key_byte : ℕ → Bool
is_key_byte c = ltb c 128 && not (is_space c) && not (c == b'=') && not (c == b'#')

abbrev pub IsKey : Text → Type 0
IsKey [] = ⊥
IsKey (c ∷ s) = All (λ d. is_key_byte d ≡ true) (c ∷ s)

-- A line that sets a key to a value in double quotes.
abbrev pub quoted_line : Text → Text → Text
quoted_line key value = key ++ b'=' ∷ 34 ∷ (value ++ 34 ∷ [])

abbrev KeyBytes : Text → Type 0
KeyBytes s = All (λ d. is_key_byte d ≡ true) s

is_empty-append : (s : Text) (c : ℕ) → is_empty (s ++ c ∷ []) ≡ false
is_empty-append [] c = refl
is_empty-append (d ∷ s) c = refl

and_false : (b : Bool) → (b && false) ≡ false
and_false true = refl
and_false false = refl

is_key_byte-is_space : (c : ℕ) → is_key_byte c ≡ true → is_space c ≡ false
is_key_byte-is_space c h = ground arith

is_key_byte_flags : (c : ℕ) → is_key_byte c ≡ true → ((c == b'=') ≡ false) × ((c == b'#') ≡ false)
is_key_byte_flags c h = ground arith

is_key_byte-is_plain : (c : ℕ) → is_key_byte c ≡ true → is_plain c ≡ true
is_key_byte-is_plain c h = ground arith

trim_right-KeyBytes : (s : Text) → KeyBytes s → trim_right s ≡ s
unfolding trim_right
trim_right-KeyBytes [] h = refl
trim_right-KeyBytes (c ∷ s) (k, h) =
    rw (trim_left_plain c s (is_key_byte-is_plain c k), trim_right-KeyBytes s h) refl

key_byte_blank : (c d : ℕ) → is_key_byte c ≡ true → is_space d ≡ true → (c == d) ≡ false
key_byte_blank c d h k = ground arith

-- A text with a blank and no equals sign is no prefix of a key with an equals sign behind it.
abbrev IsPhrase : Text → Type 0
IsPhrase [] = ⊥
IsPhrase (c ∷ p) = ((c == b'=') ≡ false) × ((is_space c ≡ true) ⊎ IsPhrase p)

has_prefix-IsPhrase :
    (s rest p : Text) → KeyBytes s → IsPhrase p → has_prefix (s ++ b'=' ∷ rest) p ≡ false
unfolding has_prefix
has_prefix-IsPhrase s rest [] h q = elim q [ ]
has_prefix-IsPhrase [] rest (d ∷ p) h (e, q) = ground arith
has_prefix-IsPhrase (c ∷ s) rest (d ∷ p) (k, h) (e, inl q) = rw (key_byte_blank c d k q) refl
has_prefix-IsPhrase (c ∷ s) rest (d ∷ p) (k, h) (e, inr q) =
    rw (has_prefix-IsPhrase s rest p h q) (and_false (c == d))

index-KeyBytes :
    (s rest : Text) → KeyBytes s → index (s ++ b'=' ∷ rest) (codes "=") ≡ some (length s)
unfolding index has_prefix
index-KeyBytes [] rest h = refl
index-KeyBytes (c ∷ s) rest (k, h) = rw ((is_key_byte_flags c k).0, index-KeyBytes s rest h) refl

last_is_end : (s : Text) (c : ℕ) → last_is c (s ++ c ∷ []) ≡ true
unfolding last_is
last_is_end [] c = ground arith
last_is_end (d ∷ []) c = ground arith
last_is_end (d ∷ e ∷ s) c = last_is_end (e ∷ s) c

strip_quotes-quoted : (value : Text) → strip_quotes (34 ∷ (value ++ 34 ∷ [])) ≡ value
unfolding strip_quotes
strip_quotes-quoted value =
    rw (long, last_is_end value 34, less) (take-append_length value (34 ∷ []))
  where
    long : leb 2 (suc (length (value ++ 34 ∷ []))) ≡ true
    long = ground (arith, length-append value (34 ∷ []))

    less : suc (length (value ++ 34 ∷ [])) - 2 ≡ length value
    less = omega (arith, length-append value (34 ∷ []))

trim_space_full :
    (c : ℕ) (s : Text) (d : ℕ)
    → is_plain c ≡ true
    → is_plain d ≡ true
    → trim_space (c ∷ (s ++ d ∷ [])) ≡ c ∷ (s ++ d ∷ [])
unfolding trim_space
trim_space_full c s d h k = rw (trim_left_plain c (s ++ d ∷ []) h) (trim_right_end (c ∷ s) d k)

trim_space-KeyBytes : (s : Text) → KeyBytes s → trim_space s ≡ s
unfolding trim_space trim_left
trim_space-KeyBytes [] h = trim_right-KeyBytes [] h
trim_space-KeyBytes (c ∷ s) (k, h) =
    rw (trim_left_plain c s (is_key_byte-is_plain c k)) (trim_right-KeyBytes (c ∷ s) (k, h))

trim_space-quoted_line :
    (c : ℕ) (key value : Text)
    → is_key_byte c ≡ true
    → trim_space (quoted_line (c ∷ key) value) ≡ quoted_line (c ∷ key) value
unfolding is_space
trim_space-quoted_line c key value h =
    rw (sym (append_assoc key (b'=' ∷ 34 ∷ value) (34 ∷ [])))
      (trim_space_full c (key ++ b'=' ∷ 34 ∷ value) 34 (is_key_byte-is_plain c h) refl)

without_export-quoted_line :
    (key value : Text)
    → KeyBytes key
    → without_export (quoted_line key value) ≡ quoted_line key value
unfolding without_export
without_export-quoted_line key value h =
    rw (has_prefix-IsPhrase key (34 ∷ (value ++ 34 ∷ [])) (codes "export ") h export_phrase) refl
  where
    export_phrase : IsPhrase (codes "export ")
    export_phrase =
        (refl, inr (refl, inr (refl, inr (refl, inr (refl, inr (refl, inr (refl, inl refl)))))))

has_prefix-number_sign :
    (c : ℕ) (s : Text) → is_key_byte c ≡ true → has_prefix (c ∷ s) (codes "#") ≡ false
unfolding has_prefix
has_prefix-number_sign c s h = rw ((is_key_byte_flags c h).1) refl

parse_env_line_cases :
    (line : Text)
    → parse_env_line line ≡ (
        if is_empty (trim_space line) || has_prefix (trim_space line) (codes "#")
        then none
        else split_at_index
            (without_export (trim_space line))
            (index (without_export (trim_space line)) (codes "=")))
unfolding parse_env_line
parse_env_line_cases line = refl

split_at_index-quoted_line :
    (key value : Text)
    → KeyBytes key
    → is_empty value ≡ false
    → split_at_index (quoted_line key value) (some (length key)) ≡ some (key, value)
unfolding is_space
split_at_index-quoted_line key value h full =
    rw
      (
        take-append_length key (b'=' ∷ 34 ∷ (value ++ 34 ∷ [])),
        add-one,
        drop-append_suc key (34 ∷ (value ++ 34 ∷ [])) b'=',
        trim_space-KeyBytes key h,
        trim_space_full 34 value 34 refl refl,
        strip_quotes-quoted value,
        full,
      )
      refl

parse_env_line-quoted_line :
    (key value : Text)
    → IsKey key
    → is_empty value ≡ false
    → parse_env_line (quoted_line key value) ≡ some (key, value)
parse_env_line-quoted_line [] value h full = elim h [ ]
parse_env_line-quoted_line (c ∷ key) value (k, h) full =
    parse_env_line_cases (quoted_line (c ∷ key) value)
    ∙ rw
        (
          trim_space-quoted_line c key value k,
          has_prefix-number_sign c (key ++ b'=' ∷ 34 ∷ (value ++ 34 ∷ [])) k,
          without_export-quoted_line (c ∷ key) value (k, h),
          index-KeyBytes (c ∷ key) (34 ∷ (value ++ 34 ∷ [])) (k, h),
        )
        (split_at_index-quoted_line (c ∷ key) value (k, h) full)

abbrev pub has_line_feed : Text → Bool
has_line_feed s = any (λ c. c == 10) s

-- The lines of a list of settings, each with a line feed behind it, and what reading them is to give
-- from a line number on.
unfoldable pub written : List (Text × Text) → Text
written [] = []
written ((key, value) ∷ settings) = quoted_line key value ++ 10 ∷ written settings

abbrev pub IsSetting : Text × Text → Type 0
IsSetting (key, value) = IsKey key × (is_empty value ≡ false) × (has_line_feed value ≡ false)

unfoldable pub numbered : Text → ℕ → List (Text × Text) → List KeyValue
numbered path line_num [] = []
numbered path line_num ((k, v) ∷ settings) =
    record { key = k; value = v; line = line_num + 1; file_path = path }
    ∷ numbered path (line_num + 1) settings

split_lines-append :
    (line rest : Text)
    → has_line_feed line ≡ false
    → split_lines (line ++ 10 ∷ rest) ≡ line ∷ split_lines rest
unfolding split_lines
split_lines-append [] rest h = refl
split_lines-append (c ∷ line) rest h = elim (Bool-cases (c == 10)) [
  | inl e ↦ (let k = rw e at h in cc)
  | inr e ↦ rw (e, split_lines-append line rest (rw e at h)) refl
]

is_key_byte-line_feed : (c : ℕ) → is_key_byte c ≡ true → (c == 10) ≡ false
unfolding is_space
is_key_byte-line_feed c h = ground arith

has_line_feed-quoted_line :
    (key value : Text)
    → KeyBytes key
    → has_line_feed value ≡ false
    → has_line_feed (quoted_line key value) ≡ false
has_line_feed-quoted_line [] value h k = any-append (λ c. c == 10) value (34 ∷ []) ∙ rw k refl
has_line_feed-quoted_line (c ∷ key) value (b, h) k =
    rw (is_key_byte-line_feed c b) (has_line_feed-quoted_line key value h k)

last_is_other : (s : Text) → last_is 13 (s ++ 34 ∷ []) ≡ false
unfolding last_is
last_is_other [] = refl
last_is_other (d ∷ []) = refl
last_is_other (d ∷ e ∷ s) = last_is_other (e ∷ s)

drop_return-quoted_line :
    (key value : Text) → drop_return (quoted_line key value) ≡ quoted_line key value
unfolding drop_return
drop_return-quoted_line key value =
    rw (sym (append_assoc key (b'=' ∷ 34 ∷ value) (34 ∷ [])))
      (rw (last_is_other (key ++ b'=' ∷ 34 ∷ value)) refl)

IsKey-KeyBytes : (key : Text) → IsKey key → KeyBytes key
IsKey-KeyBytes [] h = elim h [ ]
IsKey-KeyBytes (c ∷ key) h = h

env_loop_lem :
    (path : Text) (settings : List (Text × Text)) (line_num : ℕ)
    → All IsSetting settings
    → env_loop path line_num (scan_lines (written settings)) ≡ numbered path line_num settings
unfolding env_loop numbered written split_lines
env_loop_lem path [] line_num h = refl
env_loop_lem path ((k, v) ∷ settings) line_num ((h, full, one_line), hs) =
    rw
      (
        split_lines-append (quoted_line k v) (written settings)
            (has_line_feed-quoted_line k v (IsKey-KeyBytes k h) one_line),
        drop_return-quoted_line k v,
        parse_env_line-quoted_line k v h full,
        env_loop_lem path settings (line_num + 1) hs,
      )
      refl

-- A file of lines that each set a key to a value in double quotes is read back: each key with its value
-- and the number of its line. The keys are of ASCII bytes but white space, the equals sign and the
-- number sign, and the values are not empty and have any bytes but a line feed.
pub parse_env_file_lem :
    (path : Text) (settings : List (Text × Text))
    → All IsSetting settings
    → parse_env_file path (some (written settings)) ≡ some (numbered path 0 settings)
unfolding parse_env_file
parse_env_file_lem path settings h = ap some (env_loop_lem path settings 0 h)
