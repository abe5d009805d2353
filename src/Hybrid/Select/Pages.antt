-- ===== src/Hybrid/Select/Pages.antt =====
-- Theorems on where one page of scanner/hybrid/selector.go begins and ends.
use pci_dss_mcp.Common.{
  ℕ, ◌+◌, ◌-◌, ◌^◌, ◌≤◌, ◌<◌, ◌≡◌, refl, sym, ap, ◌∙◌, inl, inr, List, [], arith, Text, ltb,
  if◌then◌else◌, ltb→lt, lt→ltb, le→ltb, ltb→le, Bool-cases, length, take, drop, length-drop,
  drop_all, take_all,
}
use pci_dss_mcp.Hybrid.Cursor.{pos, wrap_int}
use pci_dss_mcp.Hybrid.Select.{page_end, page_of, slice_to}

-- Where `off + page_size` does not overflow, a page is what it should be.
pub page_end_lem :
    (off size total : ℕ)
    → off + size < 2 ^ 63
    → page_end off size total ≡ pos (if ltb total (off + size) then total else off + size)
unfolding page_end wrap_int
page_end_lem off size total fits = rw (lt→ltb (off + size) (2 ^ 63) fits) (ground arith)

-- A cap at the total does not change where there is a next page, nor its offset.
pub capped-next :
    (f : ℕ → Text) (n total : ℕ)
    → (if ltb (if ltb total n then total else n) total
        then f (if ltb total n then total else n)
        else [])
      ≡ (if ltb n total then f n else [])
capped-next f n total = elim (Bool-cases (ltb total n)) [
  | inl over ↦
      let lt = ltb→lt total n over in
      rw over (rw (le→ltb n total (omega arith)) (rw (le→ltb total total (omega arith)) refl))
  | inr within ↦ rw within refl
]

module _ {F : Type 0} where
  page_of-unfold :
      (off size : ℕ) (xs : List F)
      → page_of off size xs
        ≡ (if ltb off (length xs) then slice_to off (page_end off size (length xs)) xs else [])
  unfolding page_of page_end
  page_of-unfold off size xs = refl

  pub slice-take :
      (off size : ℕ) (xs : List F)
      → off ≤ length xs
      → take ((if ltb (length xs) (off + size) then length xs else off + size) - off) (drop off xs)
        ≡ take size (drop off xs)
  slice-take off size xs le = elim (Bool-cases (ltb (length xs) (off + size))) [
    | inl short ↦
        let lt = ltb→lt (length xs) (off + size) short in
        let rest : length (drop off xs) ≡ length xs - off = length-drop off xs in
        rw short (
          take_all (length xs - off) (drop off xs) (omega arith)
          ∙ sym (take_all size (drop off xs) (omega arith)))
    | inr long ↦
        let n : off + size - off ≡ size = omega arith in rw long (ap (λ k. take k (drop off xs)) n)
  ]

  pub page_of_lem :
      (off size : ℕ) (xs : List F)
      → off + size < 2 ^ 63
      → page_of off size xs ≡ take size (drop off xs)
  page_of_lem off size xs fits =
      page_of-unfold off size xs
      ∙ (rw (page_end_lem off size (length xs) fits) (elim (Bool-cases (ltb off (length xs))) [
        | inl inside ↦
            let le = ltb→lt off (length xs) inside in
            rw inside (slice-take off size xs (omega arith))
        | inr past ↦
            let le = ltb→le off (length xs) past in
            rw past (sym (ap (take size) (drop_all off xs le) ∙ take_all size [] (omega arith)))
      ]))
