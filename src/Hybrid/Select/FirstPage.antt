-- ===== src/Hybrid/Select/FirstPage.antt =====
-- Theorems on a filtered first call of `SelectAndExecute`, and on the calls that follow it.
use native.Mathlib.Nat.{zero-mul}
use pci_dss_mcp.Common.{
  ℕ, ◌+◌, ◌*◌, ◌^◌, ◌≤◌, ◌<◌, ◌≡◌, refl, sym, ap, ◌∙◌, ◌≢◌, inl, inr, Bool, true, false, ◌||◌, not,
  Option, some, List, [], ◌∷◌, ◌++◌, arith, Text, ltb, if◌then◌else◌, ltb→lt, le→ltb, ltb→le,
  Bool-cases, length, take, drop, take-append-drop, take_all,
}
use pci_dss_mcp.GoStrings.{is_empty}
use pci_dss_mcp.Hybrid.Cache.{Entry, Cache, put, session_ttl}
use pci_dss_mcp.Hybrid.Cache.Laws.{load-put}
use pci_dss_mcp.Hybrid.Cursor.{pos, Codec, IsLossless, filter_hash}
use pci_dss_mcp.Hybrid.Select.{
  Input, Meta, Session, Flat, Outcome, effective_page_size, next_from, or_empty, sid_for,
  filtered_page, with_filtered, with_scan, select_and_execute,
}
use pci_dss_mcp.Hybrid.Select.Pages.{capped-next}
use pci_dss_mcp.Hybrid.Select.Paging.{
  run, at_cursor, continue, continue-last, continue-more, collect, collect_lem, Alive,
}

-- Whether the call asks for less than everything.
abbrev pub is_filtered : Input → Bool
is_filtered input =
    ltb 0 input.limit || not (is_empty input.min_severity) || not (is_empty input.rule_filter)

abbrev pub first_size : Input → ℕ
first_size input = if ltb 0 input.limit then input.limit else effective_page_size input

module _ {F H : Type 0} (codec : Codec) (hash : Text → Text) (scan : Input → Option (List F × Meta))
    (filter : List F → Text → Text → Option (List F)) (histogram_of : List F → H) where
  open codec use {encode_cursor, decode_cursor}

  abbrev session_id : Input → Text
  session_id input =
      sid_for codec hash scan filter histogram_of input
        (filter_hash hash input.min_severity input.rule_filter input.include_tests)

  abbrev kept_session : List F → Meta → List F → Session F H
  kept_session findings meta filtered = record {
    findings = filtered;
    meta = meta;
    histogram = some (histogram_of findings);
  }

  abbrev first_page : Input → List F → Meta → List F → Flat F H
  first_page input findings meta filtered =
      let total = length filtered in
      let size = first_size input in
      let end' = if ltb total size then total else size in
      record {
        page = take end' filtered;
        all_findings = findings;
        histogram = some (histogram_of findings);
        off = 0;
        page_size = size;
        total = total;
        meta = meta;
        sid = session_id input;
        next_cursor =
            next_from codec hash scan filter histogram_of (session_id input) input.tool_name
              (pos end') total;
      }

  abbrev no_cursor : Input → Input
  no_cursor input = at_cursor codec hash scan filter histogram_of input []

  run-with_scan :
      (input : Input) (now : ℕ) (cache : Cache (Session F H))
      → input.limit ≤ effective_page_size input
      → run codec hash scan filter histogram_of (no_cursor input) now cache
        ≡ with_scan codec hash scan filter histogram_of
            (no_cursor input)
            now
            cache
            (scan (no_cursor input))
  unfolding select_and_execute effective_page_size
  run-with_scan input now cache limit =
      let within : ltb (if ltb 0 input.flat_page_size then input.flat_page_size else 60) input.limit
          ≡ false =
        le→ltb _ _ limit in
      elim (Bool-cases (ltb 0 input.limit)) [
        | inl given ↦ rw given (rw within refl)
        | inr absent ↦ rw absent refl
      ]

  with_scan-first_page :
      (input : Input) (now : ℕ) (cache : Cache (Session F H)) (findings filtered : List F)
      (meta : Meta)
      → is_filtered input ≡ true
      → filter findings input.min_severity input.rule_filter ≡ some filtered
      → with_scan codec hash scan filter histogram_of
          (no_cursor input)
          now
          cache
          (some (findings, meta))
        ≡ (
          Outcome.flat (first_page input findings meta filtered),
          put (session_id input) (kept_session findings meta filtered) now cache,
        )
  unfolding with_scan with_filtered filtered_page sid_for effective_page_size
  with_scan-first_page input now cache findings filtered meta asked kept = rw asked (rw kept refl)

  first_page-next :
      (input : Input) (findings : List F) (meta : Meta) (filtered : List F)
      → (first_page input findings meta filtered).next_cursor ≡ (
          if ltb (first_size input) (length filtered)
          then or_empty (
              encode_cursor (record {
                sid = session_id input;
                off = pos (first_size input);
                tool = input.tool_name;
              }))
          else [])
  unfolding next_from
  first_page-next input findings meta filtered =
      capped-next
        (λ k.
          or_empty (
            encode_cursor (record { sid = session_id input; off = pos k; tool = input.tool_name })))
        (first_size input) (length filtered)

  first_page-page :
      (input : Input) (findings : List F) (meta : Meta) (filtered : List F)
      → (first_page input findings meta filtered).page ≡ take (first_size input) filtered
  first_page-page input findings meta filtered =
      elim (Bool-cases (ltb (length filtered) (first_size input))) [
        | inl short ↦
            let lt = ltb→lt (length filtered) (first_size input) short in
            rw short (
              take_all (length filtered) filtered (omega arith)
              ∙ sym (take_all (first_size input) filtered (omega arith)))
        | inr long ↦ rw long refl
      ]

  abbrev pub new_entry : List F → Meta → List F → ℕ → Entry (Session F H)
  new_entry findings meta filtered now = record {
    value = kept_session findings meta filtered;
    created_at = now;
    expires_at = now + session_ttl;
  }

  -- The first answer, where the rest of the calls gathers what is behind it.
  continue-first_page :
      (input : Input) (findings filtered : List F) (meta : Meta) (cache : Cache (Session F H))
      (rest : Text → Cache (Session F H) → Option (List F))
      → IsLossless codec
      → ((u : Text)
          → ltb (first_size input) (length filtered) ≡ true
          → u ≢ []
          → decode_cursor u
            ≡ some (record {
              sid = session_id input;
              off = pos (first_size input);
              tool = input.tool_name;
            })
          → rest u cache ≡ some (drop (first_size input) filtered))
      → continue codec hash scan filter histogram_of rest
          (Outcome.flat (first_page input findings meta filtered), cache)
        ≡ some filtered
  continue-first_page input findings filtered meta cache rest ok behind =
      elim (Bool-cases (ltb (first_size input) (length filtered))) [
        | inl more ↦
            let (u, encoded, nonempty) = ok.encodes (record {
              sid = session_id input;
              off = pos (first_size input);
              tool = input.tool_name;
            }) in
            continue-more codec hash scan filter histogram_of rest
              (first_page input findings meta filtered) cache u _
              (first_page-next input findings meta filtered ∙ (rw more (rw encoded refl))) nonempty
              (behind u more nonempty (ok.decodes _ u encoded))
            ∙ ap some (
                ap (λ p. p ++ drop (first_size input) filtered)
                  (first_page-page input findings meta filtered)
                ∙ take-append-drop (first_size input) filtered)
        | inr last ↦
            let le = ltb→le (first_size input) (length filtered) last in
            continue-last codec hash scan filter histogram_of rest
              (first_page input findings meta filtered) cache
              (first_page-next input findings meta filtered ∙ rw last refl)
            ∙ ap some (
                first_page-page input findings meta filtered
                ∙ take_all (first_size input) filtered le)
      ]

  some_left :
      (size off total : ℕ) (times : List ℕ)
      → off < total
      → total ≤ off + length times * size
      → 0 < length times
  some_left size off total [] lt h = let z = zero-mul size in absurd (omega arith)
  some_left size off total (t ∷ times) lt h = omega arith

  -- A call with a filter or a limit, on a scan and a filter that succeed, and then the calls that follow
  -- its cursors while the new session lives, gather exactly the findings that the filter kept, in their
  -- order, each once, and end without a cursor, if the codec decodes what it encodes, the limit is at
  -- most a page, the calls are enough for the pages and the sizes are not near the largest integer.
  pub first_page-collect :
      (input : Input) (times : List ℕ) (now : ℕ) (cache : Cache (Session F H))
      (findings filtered : List F) (meta : Meta)
      → IsLossless codec
      → input.limit ≤ effective_page_size input
      → is_filtered input ≡ true
      → scan (no_cursor input) ≡ some (findings, meta)
      → filter findings input.min_severity input.rule_filter ≡ some filtered
      → Alive codec hash scan filter histogram_of (new_entry findings meta filtered now) times
      → length filtered + effective_page_size input < 2 ^ 63
      → length filtered ≤ first_size input + length times * effective_page_size input
      → continue codec hash scan filter histogram_of
          (collect codec hash scan filter histogram_of input times)
          (run codec hash scan filter histogram_of (no_cursor input) now cache)
        ≡ some filtered
  first_page-collect input times now cache findings filtered meta ok limit asked scanned kept alive
        fits enough =
      ap
        (continue codec hash scan filter histogram_of
          (collect codec hash scan filter histogram_of input times))
        (run-with_scan input now cache limit
          ∙ (ap (with_scan codec hash scan filter histogram_of (no_cursor input) now cache) scanned
              ∙ with_scan-first_page input now cache findings filtered meta asked kept))
      ∙ continue-first_page input findings filtered meta
          (put (session_id input) (kept_session findings meta filtered) now cache)
          (collect codec hash scan filter histogram_of input times) ok
          (λ u more nonempty decoded.
            let lt = ltb→lt (first_size input) (length filtered) more in
            collect_lem codec hash scan filter histogram_of input times u (first_size input)
              (session_id input) _ (new_entry findings meta filtered now) ok limit
              (load-put (session_id input) (kept_session findings meta filtered) now cache) alive
              fits (omega arith) nonempty decoded
              (some_left (effective_page_size input) (first_size input) (length filtered) times lt
                enough)
              enough)
