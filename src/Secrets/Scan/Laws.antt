-- ===== src/Secrets/Scan/Laws.antt =====
-- Theorems on `ScanFull` of the secret scanner.
use pci_dss_mcp.Common.{
  if◌then◌else◌, Bool, ℕ, ◌+◌, ◌≡◌, refl, ap, ◌∙◌, ◌⊎◌, inl, inr, true, false, Option, none, some,
  List, [], ◌∷◌, ◌++◌, Text,
}
use pci_dss_mcp.Secrets.{KeyValue, Patterns, analyze_key_value_in_root}
use pci_dss_mcp.Finding.{Finding}
use pci_dss_mcp.Secrets.Scan.{
  cancelled, walk_failed, parse_failed, parse_config_file, analyze_all, of_file, of_path, Files,
  Turn, ScanError, Scanned, scan_turn, add, and_then, scan_loop, scan_full,
}

module _ (files : Files) (patterns : Patterns) (root : Text) where
  -- The findings of all settings of a file.
  unfoldable pub all_findings : List KeyValue → List Finding
  all_findings [] = []
  all_findings (kv ∷ kvs) = analyze_key_value_in_root patterns kv root ++ all_findings kvs

  all_findings-analyze_all :
      (kvs : List KeyValue) → analyze_all patterns root kvs ≡ all_findings kvs
  unfolding analyze_all all_findings
  all_findings-analyze_all [] = refl
  all_findings-analyze_all (kv ∷ kvs) =
      ap (λ fs. analyze_key_value_in_root patterns kv root ++ fs) (all_findings-analyze_all kvs)

  -- A turn of a path whose file can be parsed gives the findings of its settings, one file and the
  -- lines of the file.
  abbrev pub Gives : Turn → Scanned → Type 0
  Gives t p =
      (t.is_done ≡ false)
      × (path : Text) × (kvs : List KeyValue) × (lines : ℕ) × (t.walked ≡ some path)
      × (parse_config_file files path ≡ some (kvs, lines))
      × (p ≡ (all_findings kvs, 1, lines))

  -- A turn fails with a cancelled context, else an error of the walk, or else one of the parser.
  abbrev pub Fails : Turn → ScanError → Type 0
  Fails t e =
      (t.is_done ≡ true) × (e ≡ cancelled)
      ⊎ (t.is_done ≡ false) × (t.walked ≡ none) × (e ≡ walk_failed)
      ⊎ (t.is_done ≡ false)
        × (path : Text) × (t.walked ≡ some path)
        × (parse_config_file files path ≡ none)
        × (e ≡ parse_failed path)

  abbrev TurnContract : Turn → ScanError ⊎ Scanned → Type 0
  TurnContract t (inl e) = Fails t e
  TurnContract t (inr p) = Gives t p

  scan_turn_lem : (t : Turn) → TurnContract t (scan_turn files patterns root t)
  unfolding scan_turn
  scan_turn_lem t = of_done t.is_done refl
    where
      of_parsed :
          (path : Text) (o : Option (List KeyValue × ℕ))
          → t.walked ≡ some path
          → parse_config_file files path ≡ o
          → t.is_done ≡ false
          → TurnContract t (of_file files patterns root path o)
      of_parsed path none w q e = inr (inr (e, path, w, q, refl))
      of_parsed path (some (kvs, lines)) w q e =
          (e, path, kvs, lines, w, q, ap (λ fs. (fs, 1, lines)) (all_findings-analyze_all kvs))

      of_walked :
          (o : Option Text)
          → t.walked ≡ o
          → t.is_done ≡ false
          → TurnContract t (of_path files patterns root o)
      of_walked none w e = inr (inl (e, w, refl))
      of_walked (some path) w e = of_parsed path (parse_config_file files path) w refl e

      of_done :
          (b : Bool)
          → t.is_done ≡ b
          → TurnContract t (if b then inl cancelled else of_path files patterns root t.walked)
      of_done true e = inl (e, refl)
      of_done false e = of_walked t.walked refl e

  -- Each turn gives its part.
  abbrev pub GivesAll : List Turn → List Scanned → Type 0
  GivesAll [] [] = Unit
  GivesAll [] (p ∷ parts) = ⊥
  GivesAll (t ∷ turns) [] = ⊥
  GivesAll (t ∷ turns) (p ∷ parts) = Gives t p × GivesAll turns parts

  unfoldable pub sum_of : Scanned → List Scanned → Scanned
  sum_of so_far [] = so_far
  sum_of (fs, n, lines) ((gs, m, more) ∷ parts) = sum_of (fs ++ gs, n + m, lines + more) parts

  -- The first turn that fails, behind others that do not.
  abbrev pub FailsWith : ScanError → List Turn → Type 0
  FailsWith e [] = ⊥
  FailsWith e (t ∷ turns) = Fails t e ⊎ ((p : Scanned) × Gives t p × FailsWith e turns)

  abbrev pub LoopContract : Scanned → List Turn → ScanError ⊎ Scanned → Type 0
  LoopContract so_far turns (inl e) = FailsWith e turns
  LoopContract so_far turns (inr scanned) =
      (parts : List Scanned) × GivesAll turns parts × (scanned ≡ sum_of so_far parts)

  scan_loop-LoopContract :
      (turns : List Turn) (so_far : Scanned)
      → LoopContract so_far turns (scan_loop files patterns root so_far turns)
  unfolding scan_loop sum_of
  scan_loop-LoopContract [] so_far = ([], tt, refl)
  scan_loop-LoopContract (t ∷ turns) (fs, n, lines) =
      go (scan_turn files patterns root t) (scan_turn_lem t) (λ s. scan_loop-LoopContract turns s)
    where
      later :
          (p so_far : Scanned) (r : ScanError ⊎ Scanned)
          → Gives t p
          → so_far ≡ (fs ++ p.0, n + p.1, lines + p.2)
          → LoopContract so_far turns r
          → LoopContract (fs, n, lines) (t ∷ turns) r
      later p so_far (inl e) same eq h = inr (p, same, h)
      later p so_far (inr scanned) same eq (parts, gives, sum) =
          (p ∷ parts, (same, gives), sum ∙ ap (λ s. sum_of s parts) eq)

      go :
          (r : ScanError ⊎ Scanned)
          → TurnContract t r
          → ((s : Scanned) → LoopContract s turns (scan_loop files patterns root s turns))
          → LoopContract
              (fs, n, lines)
              (t ∷ turns)
              (and_then files patterns root
                (add files patterns root (fs, n, lines) r)
                (λ s. scan_loop files patterns root s turns))
      go (inl e) same h = inl same
      go (inr p) same h =
          later p (fs ++ p.0, n + p.1, lines + p.2) _ same refl
            (h (fs ++ p.0, n + p.1, lines + p.2))

  -- The scan fails exactly as its first failing turn does, and then reports no finding: with
  -- `cancelled` where the context is done, else `walk_failed` for an error of the walk, or else
  -- `parse_failed` with the path of a file that cannot be parsed. Otherwise no turn fails, and the
  -- result is the findings of all settings of all files, in the order of the walk, the number of the
  -- files and the sum of their lines.
  pub scan_full_lem :
      (turns : List Turn) → LoopContract ([], 0, 0) turns (scan_full files patterns root turns)
  unfolding scan_full
  scan_full_lem turns = scan_loop-LoopContract turns ([], 0, 0)
