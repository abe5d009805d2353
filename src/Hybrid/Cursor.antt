-- ===== src/Hybrid/Cursor.antt =====
-- `CursorPayload`, `SessionKey` and `FilterHash` of scanner/hybridcache/hybridcache.go, and the
-- machine integers of an offset.
use pci_dss_mcp.Common.{
  ℕ, ◌-◌, ◌^◌, ◌≡◌, ◌≢◌, Bool, Option, some, [], ◌∷◌, ◌++◌, Text, codes, ltb, if◌then◌else◌,
}

-- A Go `int`; `negsuc n` is -(n + 1).
pub data ℤ : Type 0 where
  pos : ℕ → ℤ
  negsuc : ℕ → ℤ

-- A sum of two non-negative 64-bit integers, wrapped around.
unfoldable pub wrap_int : ℕ → ℤ
wrap_int n = if ltb n (2 ^ 63) then pos n else negsuc (2 ^ 64 - 1 - n)

-- `if off < 0 { off = 0 }`.
unfoldable pub clamp : ℤ → ℕ
clamp (pos n) = n
clamp (negsuc _) = 0

pub record CursorPayload : Type 0 where
  pub sid : Text
  pub off : ℤ
  pub tool : Text

-- JSON and base64 of the standard library, as they are used: the texts are opaque. Encoding does not
-- fail on a payload, gives a text that is not empty, and decoding undoes it.
pub record Codec : Type 0 where
  pub encode_cursor : CursorPayload → Option Text
  pub decode_cursor : Text → Option CursorPayload

pub record IsLossless (c : Codec) : Type 0 where
  pub encodes : (p : CursorPayload) → (t : Text) × (c.encode_cursor p ≡ some t) × (t ≢ [])
  pub decodes :
      (p : CursorPayload) (t : Text) → c.encode_cursor p ≡ some t → c.decode_cursor t ≡ some p

-- `hash` is the first half of the SHA-256 sum of the written bytes, in hexadecimal.
module _ (hash : Text → Text) where
  unfoldable pub session_key : Text → Text → Text → Bool → Text
  session_key project_root timestamp fh include_taint = hash (
      project_root
      ++ 0 ∷ (timestamp ++ 0 ∷ (fh ++ 0 ∷ (if include_taint then codes "1" else codes "0"))))

  unfoldable pub filter_hash : Text → Text → Bool → Text
  filter_hash min_severity rule_filter include_tests = hash (
      min_severity
      ++ (codes "|"
          ++ (rule_filter ++ (codes "|" ++ (if include_tests then codes "1" else codes "0")))))
