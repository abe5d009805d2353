-- ===== src/Examples/Sessions.antt =====
-- The session cache, and a client of the paginated tools.
use pci_dss_mcp.Common.{
  ℕ, ◌≡◌, refl, sym, ap, ◌∙◌, ◌≢◌, false, Option, none, some, List, [], ◌∷◌, ◌++◌, arith, Text,
  codes, eq_text, ◌==◌, if◌then◌else◌, length, take, drop, count_by,
}
use pci_dss_mcp.Sort.{IsSorted}
use pci_dss_mcp.Finding.{severity_stats}
use pci_dss_mcp.Hybrid.Histogram.{before, build_histogram}
use pci_dss_mcp.Hybrid.Histogram.Laws.{
  IsTop, ranked, count_of, entries_of, total, build_histogram_lem,
}
use pci_dss_mcp.Examples.Data.{two_findings}
use pci_dss_mcp.Hybrid.Cache.{Entry, Cache, session_ttl, load, get}
use pci_dss_mcp.Hybrid.Cache.Laws.{visible, get_lem}
use pci_dss_mcp.Hybrid.Cursor.{ℤ, pos, negsuc, CursorPayload, Codec, IsLossless}
use pci_dss_mcp.Hybrid.Select.{Meta, Input, Session, effective_page_size}
use pci_dss_mcp.Hybrid.Select.FirstPage.{first_page-collect}
use pci_dss_mcp.Hybrid.Select.Paging.{at_cursor, continue, run, collect, collect_lem}

abbrev one_session : Cache ℕ
one_session = (codes "s", record { value = 7; created_at = 0; expires_at = session_ttl }) ∷ []

get_lem_example :
    ((get (codes "s") 5 one_session).0 ≡ visible 5 one_session (codes "s"))
    × (visible 5 (get (codes "s") 5 one_session).1 (codes "t") ≡ visible 5 one_session (codes "t"))
get_lem_example = get_lem (codes "s") (codes "t") 5 one_session

-- A codec that spells a payload out: the sign and the offset, the length of the session's key, the key
-- and the tool.
sign : ℤ → ℕ
sign (pos n) = 0
sign (negsuc n) = 1

size : ℤ → ℕ
size (pos n) = n
size (negsuc n) = n

encoded : CursorPayload → Text
encoded p = sign p.off ∷ size p.off ∷ length p.sid ∷ (p.sid ++ p.tool)

encode : CursorPayload → Option Text
encode p = some (encoded p)

decode : Text → Option CursorPayload
decode [] = none
decode (s ∷ []) = none
decode (s ∷ n ∷ []) = none
decode (s ∷ n ∷ k ∷ rest) =
    some
      (record { sid = take k rest; off = if s == 0 then pos n else negsuc n; tool = drop k rest })

abbrev plain_codec : Codec
plain_codec = record { encode_cursor = encode; decode_cursor = decode }

take-length-append : (s t : Text) → take (length s) (s ++ t) ≡ s
take-length-append [] t = refl
take-length-append (c ∷ s) t = ap (λ r. c ∷ r) (take-length-append s t)

drop-length-append : (s t : Text) → drop (length s) (s ++ t) ≡ t
drop-length-append [] t = refl
drop-length-append (c ∷ s) t = drop-length-append s t

decode-encoded :
    (sid : Text) (off : ℤ) (tool : Text)
    → decode (encoded (record { sid = sid; off = off; tool = tool }))
      ≡ some (record { sid = sid; off = off; tool = tool })
unfolding encoded decode sign size
decode-encoded sid (pos n) tool =
    rw (take-length-append sid tool) (rw (drop-length-append sid tool) refl)
decode-encoded sid (negsuc n) tool =
    rw (take-length-append sid tool) (rw (drop-length-append sid tool) refl)

abbrev or_nothing : Option Text → Text
or_nothing none = []
or_nothing (some t) = t

cons-ne : (c : ℕ) (t : Text) → c ∷ t ≢ []
cons-ne c t h = let l = ap length h in omega (arith, l)

nonempty : (p : CursorPayload) → encoded p ≢ []
unfolding encoded
nonempty p h = cons-ne _ _ h

plain_codec-IsLossless : IsLossless plain_codec
unfolding encode
plain_codec-IsLossless = record {
  encodes = λ p. (encoded p, refl, nonempty p);
  decodes = λ p t h. ap decode (sym (ap or_nothing h)) ∙ decode-encoded p.sid p.off p.tool;
}

abbrev input : Input
input = record {
  abs_path = codes "/r";
  cursor = [];
  min_severity = [];
  rule_filter = [];
  limit = 0;
  include_tests = false;
  include_taint = false;
  scan_timestamp = codes "now";
  tool_name = codes "scan";
  flat_page_size = 2;
}

abbrev session : Entry (Session ℕ Unit)
session = record {
  value = record {
    findings = 1 ∷ 2 ∷ 3 ∷ 4 ∷ 5 ∷ [];
    meta = record { total_files = 1; total_lines = 1; duration_ms = 1 };
    histogram = none;
  };
  created_at = 0;
  expires_at = session_ttl;
}

abbrev first_cursor : Text
first_cursor = 0 ∷ 0 ∷ 1 ∷ (codes "s" ++ codes "scan")

first_cursor_test :
    decode first_cursor ≡ some (record { sid = codes "s"; off = pos 0; tool = codes "scan" })
unfolding decode
first_cursor_test = refl

stored_test : load (codes "s") ((codes "s", session) ∷ []) ≡ some session
unfolding load eq_text
stored_test = refl

collect_lem_example :
    collect plain_codec
      (λ t. t)
      (λ _. none)
      (λ fs _ _. some fs)
      (λ _. tt)
      input
      (1 ∷ 2 ∷ 3 ∷ [])
      first_cursor
      ((codes "s", session) ∷ [])
    ≡ some (1 ∷ 2 ∷ 3 ∷ 4 ∷ 5 ∷ [])
unfolding effective_page_size
collect_lem_example =
    collect_lem plain_codec (λ t. t) (λ _. none) (λ fs _ _. some fs) (λ _. tt) input
      (1 ∷ 2 ∷ 3 ∷ []) first_cursor 0 (codes "s") ((codes "s", session) ∷ []) session
      plain_codec-IsLossless (omega arith) stored_test
      (omega arith, (omega arith, (omega arith, tt))) (omega arith) (omega arith) (cons-ne _ _)
      first_cursor_test (omega arith) (omega arith)

abbrev limited : Input
limited = record input { limit = 1 }

abbrev five : List ℕ
five = 1 ∷ 2 ∷ 3 ∷ 4 ∷ 5 ∷ []

abbrev small : Meta
small = record { total_files = 1; total_lines = 1; duration_ms = 1 }

first_page-collect_example :
    continue plain_codec
      (λ t. t)
      (λ _. some (five, small))
      (λ fs _ _. some fs)
      (λ _. tt)
      (collect plain_codec
        (λ t. t)
        (λ _. some (five, small))
        (λ fs _ _. some fs)
        (λ _. tt)
        limited
        (1 ∷ 2 ∷ []))
      (run plain_codec
        (λ t. t)
        (λ _. some (five, small))
        (λ fs _ _. some fs)
        (λ _. tt)
        (at_cursor plain_codec
          (λ t. t)
          (λ _. some (five, small))
          (λ fs _ _. some fs)
          (λ _. tt)
          limited
          [])
        0
        [])
    ≡ some five
unfolding effective_page_size
first_page-collect_example =
    first_page-collect plain_codec (λ t. t) (λ _. some (five, small)) (λ fs _ _. some fs) (λ _. tt)
      limited (1 ∷ 2 ∷ []) 0 [] five five small plain_codec-IsLossless (omega arith) refl refl refl
      (omega arith, (omega arith, tt)) (omega arith) (omega arith)

build_histogram_lem_example :
    IsTop (build_histogram two_findings) (ranked two_findings)
    × IsSorted before (ranked two_findings)
    × (entries_of (codes "A") (ranked two_findings)
        ≡ (if count_by (λ f. eq_text f.rule_id (codes "A")) two_findings == 0 then 0 else 1))
    × (count_of (codes "A") (ranked two_findings)
        ≡ count_by (λ f. eq_text f.rule_id (codes "A")) two_findings)
    × (total (ranked two_findings) ≡ length two_findings)
    × ((build_histogram two_findings).by_severity ≡ severity_stats two_findings)
build_histogram_lem_example = build_histogram_lem two_findings (codes "A")
