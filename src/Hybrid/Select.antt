-- ===== src/Hybrid/Select.antt =====
-- scanner/hybrid/selector.go: `SelectAndExecute`, the one entry of the paginated tools.
pub mod Pages
pub mod Paging
pub mod FirstPage
use pci_dss_mcp.Common.{
  ℕ, ◌+◌, ◌-◌, Bool, true, ◌&&◌, ◌||◌, not, Option, none, some, List, [], ◌++◌, Text, codes,
  eq_text, ltb, if◌then◌else◌, length, take, drop,
}
use pci_dss_mcp.GoStrings.{is_empty}
use pci_dss_mcp.Hybrid.Cache.{Entry, Cache, get, put}
use pci_dss_mcp.Hybrid.Cursor.{
  ℤ, pos, negsuc, wrap_int, clamp, CursorPayload, Codec, session_key, filter_hash,
}

-- A negative limit or page size acts as 0, so these are natural numbers.
pub record Input : Type 0 where
  pub abs_path : Text
  pub cursor : Text
  pub min_severity : Text
  pub rule_filter : Text
  pub limit : ℕ
  pub include_tests : Bool
  pub include_taint : Bool
  pub scan_timestamp : Text
  pub tool_name : Text
  pub flat_page_size : ℕ

-- `ScanMeta`.
pub record Meta : Type 0 where
  pub total_files : ℕ
  pub total_lines : ℕ
  pub duration_ms : ℕ

-- What the session cache holds of a scan: the findings, the metadata and, for a filtered scan, the
-- histogram of all its findings.
pub record Session (F H : Type 0) : Type 0 where
  pub findings : List F
  pub meta : Meta
  pub histogram : Option H

-- The arguments of the callback `buildFlat`, without the constant `autoCapped`.
pub record Flat (F H : Type 0) : Type 0 where
  pub page : List F
  pub all_findings : List F
  pub histogram : Option H
  pub off : ℕ
  pub page_size : ℕ
  pub total : ℕ
  pub meta : Meta
  pub sid : Text
  pub next_cursor : Text

-- The arguments of the callback `buildSummary`.
pub record Summary (F : Type 0) : Type 0 where
  pub findings : List F
  pub meta : Meta
  pub sid : Text
  pub next_cursor : Text

pub data CursorError : Type 0 where
  limit_exceeds_page_size cursor_malformed cursor_expired : CursorError

-- `Result`, or one of the two Go errors. The callbacks only format what is in `flat` and `summary`.
pub data Outcome (F H : Type 0) : Type 0 where
  summary : Summary F → Outcome F H
  flat : Flat F H → Outcome F H
  refused : CursorError → Outcome F H
  scan_failed filter_failed : Outcome F H

unfoldable pub effective_page_size : Input → ℕ
effective_page_size input = if ltb 0 input.flat_page_size then input.flat_page_size else 60

-- `end := off + pageSize; if end > total { end = total }`.
unfoldable pub page_end : ℕ → ℕ → ℕ → ℤ
unfolding wrap_int
page_end off page_size total = cap_at (wrap_int (off + page_size)) total
  where
    cap_at : ℤ → ℕ → ℤ
    cap_at (pos e) t = if ltb t e then pos t else pos e
    cap_at (negsuc e) t = negsuc e

-- `end < total`.
abbrev pub below : ℤ → ℕ → Bool
below (pos e) t = ltb e t
below (negsuc e) t = true

-- `cached[off:end]` where `off < total`; the slice is not reached with a negative end.
abbrev slice_to : {F : Type 0} → ℕ → ℤ → List F → List F
slice_to off (pos e) xs = take (e - off) (drop off xs)
slice_to off (negsuc e) xs = []

unfoldable pub page_of : {F : Type 0} → ℕ → ℕ → List F → List F
unfolding page_end
page_of off page_size xs =
    if ltb off (length xs) then slice_to off (page_end off page_size (length xs)) xs else []

abbrev pub or_empty : Option Text → Text
or_empty none = []
or_empty (some t) = t

-- `codec` and `hash` are the library's; `scan`, `filter` and `histogram_of` are the tool's callbacks,
-- where `none` is an error.
module _ {F H : Type 0} (codec : Codec) (hash : Text → Text) (scan : Input → Option (List F × Meta))
    (filter : List F → Text → Text → Option (List F)) (histogram_of : List F → H) where
  open codec use {encode_cursor, decode_cursor}

  abbrev Step : Type 0
  Step = Outcome F H × Cache (Session F H)

  -- The next cursor; an error in the encoding is logged and gives the empty text.
  next_from : Text → Text → ℤ → ℕ → Text
  next_from sid tool end' total =
      if below end' total
      then or_empty (encode_cursor (record { sid = sid; off = end'; tool = tool }))
      else []

  cursor_page : Input → CursorPayload → Session F H → Flat F H
  unfolding next_from
  cursor_page input payload session =
      let off = clamp payload.off in
      let size = effective_page_size input in
      let total = length session.findings in
      record {
        page = page_of off size session.findings;
        all_findings = session.findings;
        histogram = session.histogram;
        off = off;
        page_size = size;
        total = total;
        meta = session.meta;
        sid = payload.sid;
        next_cursor = next_from payload.sid input.tool_name (page_end off size total) total;
      }

  from_session : Input → CursorPayload → Option (Entry (Session F H)) × Cache (Session F H) → Step
  from_session input payload (none, cache) = (refused cursor_expired, cache)
  from_session input payload (some e, cache) = (flat (cursor_page input payload e.value), cache)

  follow_cursor : Input → ℕ → Cache (Session F H) → Option CursorPayload → Step
  unfolding from_session cursor_page
  follow_cursor input now cache none = (refused cursor_malformed, cache)
  follow_cursor input now cache (some payload) =
      if not (is_empty payload.tool) && not (eq_text payload.tool input.tool_name)
      then (refused cursor_malformed, cache)
      else from_session input payload (get payload.sid now cache)

  sid_for : Input → Text → Text
  sid_for input fh =
      session_key hash (input.abs_path ++ (codes "|" ++ input.tool_name)) input.scan_timestamp fh
        input.include_taint

  filtered_page : Input → List F → Meta → List F → ℕ → Cache (Session F H) → Step
  unfolding next_from sid_for
  filtered_page input findings meta filtered now cache =
      let fh = filter_hash hash input.min_severity input.rule_filter input.include_tests in
      let sid = sid_for input fh in
      let hist = histogram_of findings in
      let size = if ltb 0 input.limit then input.limit else effective_page_size input in
      let total = length filtered in
      let end' = if ltb total size then total else size in
      (
        flat (record {
          page = take end' filtered;
          all_findings = findings;
          histogram = some hist;
          off = 0;
          page_size = size;
          total = total;
          meta = meta;
          sid = sid;
          next_cursor = next_from sid input.tool_name (pos end') total;
        }),
        put sid (record { findings = filtered; meta = meta; histogram = some hist }) now cache,
      )

  summary_page : Input → List F → Meta → ℕ → Cache (Session F H) → Step
  unfolding sid_for
  summary_page input findings meta now cache =
      let sid = sid_for input (filter_hash hash [] [] input.include_tests) in
      (
        summary (record {
          findings = findings;
          meta = meta;
          sid = sid;
          next_cursor =
              or_empty (encode_cursor (record { sid = sid; off = pos 0; tool = input.tool_name }));
        }),
        put sid (record { findings = findings; meta = meta; histogram = none }) now cache,
      )

  with_filtered : Input → List F → Meta → ℕ → Cache (Session F H) → Option (List F) → Step
  with_filtered input findings meta now cache none = (filter_failed, cache)
  with_filtered input findings meta now cache (some filtered) =
      filtered_page input findings meta filtered now cache

  with_scan : Input → ℕ → Cache (Session F H) → Option (List F × Meta) → Step
  unfolding with_filtered filtered_page summary_page
  with_scan input now cache none = (scan_failed, cache)
  with_scan input now cache (some (findings, meta)) =
      if ltb 0 input.limit || not (is_empty input.min_severity) || not (is_empty input.rule_filter)
      then with_filtered input findings meta now cache
          (filter findings input.min_severity input.rule_filter)
      else summary_page input findings meta now cache

  -- `now` is the time of the call.
  unfoldable pub select_and_execute : Input → ℕ → Cache (Session F H) → Step
  unfolding follow_cursor with_scan
  select_and_execute input now cache =
      if ltb 0 input.limit && ltb (effective_page_size input) input.limit
      then (refused limit_exceeds_page_size, cache)
      else if not (is_empty input.cursor)
      then follow_cursor input now cache (decode_cursor input.cursor)
      else with_scan input now cache (scan input)
