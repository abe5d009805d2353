-- ===== src/Hybrid/Select/Paging.antt =====
-- Theorems on a client of `SelectAndExecute` that follows the cursors of one session.
use native.Mathlib.Nat.{suc-mul, zero-mul}
use pci_dss_mcp.Common.{
  ℕ, ◌+◌, ◌*◌, ◌^◌, ◌≤◌, ◌<◌, ◌≡◌, refl, sym, ap, ◌∙◌, ◌≢◌, ◌⊎◌, inl, inr, true, false, Option,
  none, some, List, [], ◌∷◌, ◌++◌, arith, Text, eq_text_refl, ltb, if◌then◌else◌, ltb→lt, le→ltb,
  ltb→le, Bool-cases, length, take, drop, length-drop, take-append-drop, drop-add, take_all,
}
use pci_dss_mcp.GoStrings.{is_empty}
use pci_dss_mcp.Hybrid.Cache.{Entry, Cache, load, get}
use pci_dss_mcp.Hybrid.Cache.Laws.{get-alive}
use pci_dss_mcp.Hybrid.Cursor.{pos, clamp, Codec, IsLossless}
use pci_dss_mcp.Hybrid.Select.{
  Input, Meta, Session, Flat, Outcome, effective_page_size, next_from, cursor_page, from_session,
  follow_cursor, or_empty, select_and_execute,
}
use pci_dss_mcp.Hybrid.Select.Pages.{page_end_lem, capped-next, page_of_lem}

module _ {F H : Type 0} (codec : Codec) (hash : Text → Text) (scan : Input → Option (List F × Meta))
    (filter : List F → Text → Text → Option (List F)) (histogram_of : List F → H) where
  open codec use {encode_cursor, decode_cursor}

  abbrev pub at_cursor : Input → Text → Input
  at_cursor input c = record input { cursor = c }

  abbrev pub run : Input → ℕ → Cache (Session F H) → Outcome F H × Cache (Session F H)
  run = select_and_execute codec hash scan filter histogram_of

  -- What a client gathers from an answer, with the rest of its calls.
  abbrev pub continue :
      (Text → Cache (Session F H) → Option (List F))
      → Outcome F H × Cache (Session F H)
      → Option (List F)
  continue rest (Outcome.flat f, cache) = further f.page f.next_cursor (rest f.next_cursor cache)
    where
      further : List F → Text → Option (List F) → Option (List F)
      further page [] later = some page
      further page (_ ∷ _) none = none
      further page (_ ∷ _) (some xs) = some (page ++ xs)
  continue rest (_, cache) = none

  -- A client that calls at the given times, each time with the cursor of the answer before, until an
  -- answer has no cursor; `none` when an answer is an error or the times run out.
  unfoldable pub collect : Input → List ℕ → Text → Cache (Session F H) → Option (List F)
  collect input [] cursor cache = none
  collect input (t ∷ times) cursor cache =
      continue (collect input times) (run (at_cursor input cursor) t cache)

  -- The answer to a good cursor.
  abbrev answer : Input → Text → ℕ → Entry (Session F H) → Flat F H
  answer input sid off e =
      cursor_page codec hash scan filter histogram_of input
        (record { sid = sid; off = pos off; tool = input.tool_name }) e.value

  follow_cursor-flat :
      (input : Input) (off now : ℕ) (sid : Text) (cache : Cache (Session F H))
      (e : Entry (Session F H))
      → get sid now cache ≡ (some e, cache)
      → follow_cursor codec hash scan filter histogram_of input now cache
          (some (record { sid = sid; off = pos off; tool = input.tool_name }))
        ≡ (Outcome.flat (answer input sid off e), cache)
  unfolding follow_cursor from_session
  follow_cursor-flat input off now sid cache e found =
      rw (eq_text_refl input.tool_name) (elim (Bool-cases (is_empty input.tool_name)) [
        | inl e' ↦ rw e' (rw found refl)
        | inr e' ↦ rw e' (rw found refl)
      ])

  run-follow_cursor :
      (input : Input) (b : ℕ) (c : Text) (now : ℕ) (cache : Cache (Session F H))
      → input.limit ≤ effective_page_size input
      → run (at_cursor input (b ∷ c)) now cache
        ≡ follow_cursor codec hash scan filter histogram_of
            (at_cursor input (b ∷ c))
            now
            cache
            (decode_cursor (b ∷ c))
  unfolding select_and_execute effective_page_size
  run-follow_cursor input b c now cache fits =
      let within : ltb (if ltb 0 input.flat_page_size then input.flat_page_size else 60) input.limit
          ≡ false =
        le→ltb _ _ fits in
      elim (Bool-cases (ltb 0 input.limit)) [
        | inl given ↦ rw given (rw within refl)
        | inr absent ↦ rw absent refl
      ]

  answer-page :
      (input : Input) (sid : Text) (off : ℕ) (e : Entry (Session F H))
      → off + effective_page_size input < 2 ^ 63
      → (answer input sid off e).page ≡ take (effective_page_size input) (drop off e.value.findings)
  unfolding cursor_page clamp
  answer-page input sid off e fits =
      page_of_lem off (effective_page_size input) e.value.findings fits

  answer-next :
      (input : Input) (sid : Text) (off : ℕ) (e : Entry (Session F H))
      → off + effective_page_size input < 2 ^ 63
      → (answer input sid off e).next_cursor ≡ (
          if ltb (off + effective_page_size input) (length e.value.findings)
          then or_empty (
              encode_cursor (record {
                sid = sid;
                off = pos (off + effective_page_size input);
                tool = input.tool_name;
              }))
          else [])
  unfolding cursor_page next_from clamp
  answer-next input sid off e fits =
      rw (page_end_lem off (effective_page_size input) (length e.value.findings) fits) (
        capped-next
          (λ k.
            or_empty (encode_cursor (record { sid = sid; off = pos k; tool = input.tool_name })))
          (off + effective_page_size input) (length e.value.findings))

  -- The same for an input with its cursor.
  at_cursor-page :
      (input : Input) (c sid : Text) (off : ℕ) (e : Entry (Session F H))
      → off + effective_page_size input < 2 ^ 63
      → (answer (at_cursor input c) sid off e).page
        ≡ take (effective_page_size input) (drop off e.value.findings)
  unfolding effective_page_size
  at_cursor-page input c sid off e fits = answer-page (at_cursor input c) sid off e fits

  at_cursor-next :
      (input : Input) (c sid : Text) (off : ℕ) (e : Entry (Session F H))
      → off + effective_page_size input < 2 ^ 63
      → (answer (at_cursor input c) sid off e).next_cursor ≡ (
          if ltb (off + effective_page_size input) (length e.value.findings)
          then or_empty (
              encode_cursor (record {
                sid = sid;
                off = pos (off + effective_page_size input);
                tool = input.tool_name;
              }))
          else [])
  unfolding effective_page_size
  at_cursor-next input c sid off e fits = answer-next (at_cursor input c) sid off e fits

  -- What the rest of the calls gathers, in front of it this page.
  pub continue-last :
      (rest : Text → Cache (Session F H) → Option (List F)) (f : Flat F H)
      (cache : Cache (Session F H))
      → f.next_cursor ≡ []
      → continue rest (Outcome.flat f, cache) ≡ some f.page
  continue-last rest f cache h = rw h refl

  pub continue-more :
      (rest : Text → Cache (Session F H) → Option (List F)) (f : Flat F H)
      (cache : Cache (Session F H)) (t : Text) (xs : List F)
      → f.next_cursor ≡ t
      → t ≢ []
      → rest t cache ≡ some xs
      → continue rest (Outcome.flat f, cache) ≡ some (f.page ++ xs)
  continue-more rest f cache [] xs h nonempty r = absurd (nonempty refl)
  continue-more rest f cache (b ∷ t) xs h nonempty r = rw h (rw r refl)

  -- The session lives at every time of the list.
  abbrev pub Alive : Entry (Session F H) → List ℕ → Type 0
  Alive e [] = Unit
  Alive e (t ∷ times) = (t ≤ e.expires_at) × Alive e times

  collect_nil :
      (input : Input) (c : Text) (cache : Cache (Session F H)) → collect input [] c cache ≡ none
  unfolding collect
  collect_nil input c cache = refl

  collect_cons :
      (input : Input) (t : ℕ) (times : List ℕ) (c : Text) (cache : Cache (Session F H))
      → collect input (t ∷ times) c cache
        ≡ continue (collect input times) (run (at_cursor input c) t cache)
  unfolding collect
  collect_cons input t times c cache = refl

  -- One answer, where the rest of the calls gathers the findings behind it.
  continue_lem :
      (input : Input) (c : Text) (off : ℕ) (sid : Text) (cache : Cache (Session F H))
      (e : Entry (Session F H)) (rest : Text → Cache (Session F H) → Option (List F))
      → IsLossless codec
      → off + effective_page_size input < 2 ^ 63
      → ((u : Text)
          → ltb (off + effective_page_size input) (length e.value.findings) ≡ true
          → u ≢ []
          → decode_cursor u
            ≡ some (record {
              sid = sid;
              off = pos (off + effective_page_size input);
              tool = input.tool_name;
            })
          → rest u cache ≡ some (drop (off + effective_page_size input) e.value.findings))
      → continue rest (Outcome.flat (answer (at_cursor input c) sid off e), cache)
        ≡ some (drop off e.value.findings)
  continue_lem input c off sid cache e rest ok fits behind =
      gather (Bool-cases (ltb (off + size) (length e.value.findings)))
    where
      size : ℕ
      size = effective_page_size input

      f : Flat F H
      f = answer (at_cursor input c) sid off e

      next : f.next_cursor ≡ (
          if ltb (off + size) (length e.value.findings)
          then or_empty
              (encode_cursor (record { sid = sid; off = pos (off + size); tool = input.tool_name }))
          else [])
      next = at_cursor-next input c sid off e fits

      page : f.page ≡ take size (drop off e.value.findings)
      page = at_cursor-page input c sid off e fits

      gather :
          ((ltb (off + size) (length e.value.findings) ≡ true)
            ⊎ (ltb (off + size) (length e.value.findings) ≡ false))
          → continue rest (Outcome.flat f, cache) ≡ some (drop off e.value.findings)
      gather (inl more) =
          let (u, encoded, u_nonempty) =
            ok.encodes (record { sid = sid; off = pos (off + size); tool = input.tool_name }) in
          continue-more rest f cache u _ (next ∙ (rw more (rw encoded refl))) u_nonempty
            (behind u more u_nonempty (ok.decodes _ u encoded))
          ∙ ap some (
              ap (λ p. p ++ drop (off + size) e.value.findings) page
              ∙ (ap (λ r. take size (drop off e.value.findings) ++ r)
                    (sym (drop-add off size e.value.findings))
                  ∙ take-append-drop size (drop off e.value.findings)))
      gather (inr last) =
          let le = ltb→le (off + size) (length e.value.findings) last in
          let l = length-drop off e.value.findings in
          continue-last rest f cache (next ∙ rw last refl)
          ∙ ap some (page ∙ take_all size (drop off e.value.findings) (omega arith))

  -- A client that follows the cursors of a session that stays alive, with a codec that decodes what it
  -- encodes, gathers exactly the findings of the session from its first offset on, in their order, each
  -- once, and comes to an answer without a cursor, if its calls are enough for the pages and neither
  -- the offset nor the page size is near the largest integer.
  pub collect_lem :
      (input : Input) (times : List ℕ) (c : Text) (off : ℕ) (sid : Text)
      (cache : Cache (Session F H)) (e : Entry (Session F H))
      → IsLossless codec
      → input.limit ≤ effective_page_size input
      → load sid cache ≡ some e
      → Alive e times
      → length e.value.findings + effective_page_size input < 2 ^ 63
      → off ≤ length e.value.findings
      → c ≢ []
      → decode_cursor c ≡ some (record { sid = sid; off = pos off; tool = input.tool_name })
      → 0 < length times
      → length e.value.findings ≤ off + length times * effective_page_size input
      → collect input times c cache ≡ some (drop off e.value.findings)
  collect_lem input [] c off sid cache e ok limit stored alive fits inside nonempty decoded
        some_call enough =
      absurd (omega arith)
  collect_lem input (t ∷ times) [] off sid cache e ok limit stored alive fits inside nonempty
        decoded some_call enough =
      absurd (nonempty refl)
  collect_lem input (t ∷ times) (b ∷ c) off sid cache e ok limit stored (live, alive) fits inside
        nonempty decoded some_call enough =
      let here = at_cursor input (b ∷ c) in
      let first =
        run-follow_cursor input b c t cache limit
        ∙ (ap (follow_cursor codec hash scan filter histogram_of here t cache) decoded
            ∙ follow_cursor-flat here off t sid cache e (get-alive sid t cache e stored live)) in
      collect_cons input t times (b ∷ c) cache
      ∙ (ap (continue (collect input times)) first
          ∙ continue_lem input (b ∷ c) off sid cache e (collect input times) ok (omega arith)
              (λ u more u_nonempty u_decoded.
                let lt = ltb→lt (off + effective_page_size input) (length e.value.findings) more in
                let calls = suc-mul (length times) (effective_page_size input) in
                collect_lem input times u (off + effective_page_size input) sid cache e ok limit
                  stored alive fits (omega arith) u_nonempty u_decoded (some_left times lt enough)
                  (omega arith)))
    where
      some_left :
          (ts : List ℕ)
          → off + effective_page_size input < length e.value.findings
          → length e.value.findings ≤ off + length (t ∷ ts) * effective_page_size input
          → 0 < length ts
      some_left [] lt h =
          let one = suc-mul 0 (effective_page_size input) in
          let none' = zero-mul (effective_page_size input) in absurd (omega arith)
      some_left (_ ∷ ts) lt h = omega arith
