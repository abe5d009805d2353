-- ===== src/Hybrid/Cache/Laws.antt =====
-- Theorems on the session cache, seen as a map in which entries expire by themselves.
use mathlib.Core.Path.{subst}
use pci_dss_mcp.Common.{
  le→ltb, ℕ, ◌+◌, ◌≤◌, ◌≡◌, refl, sym, ap, ◌∙◌, inl, inr, Option, none, some, [], ◌∷◌, arith, Text,
  eq_text, eq_text_refl, eq_text_iff, eq_text_cases, ltb, if◌then◌else◌, Bool-cases,
}
use pci_dss_mcp.Hybrid.Cache.{
  session_ttl, Entry, Cache, load, delete, is_expired, evict_expired, put, fetch, get,
}

module _ {V : Type 0} where
  -- No key stands twice.
  abbrev pub IsMap : Cache V → Type 0
  IsMap [] = Unit
  IsMap ((k, e) ∷ cache) = (load k cache ≡ none) × IsMap cache

  -- What a client may see at a time: the entry that is not expired.
  abbrev alive : ℕ → Option (Entry V) → Option (Entry V)
  alive now none = none
  alive now (some e) = if is_expired now e then none else some e

  abbrev pub visible : ℕ → Cache V → Text → Option (Entry V)
  visible now cache sid = alive now (load sid cache)

  load-delete :
      (sid k : Text) (cache : Cache V)
      → load k (delete sid cache) ≡ (if eq_text sid k then none else load k cache)
  unfolding load delete
  load-delete sid k [] = ground arith
  load-delete sid k ((j, e) ∷ cache) =
      ground (arith, eq_text_iff j sid, eq_text_iff j k, eq_text_iff sid k, load-delete sid k cache)

  load-evict_expired :
      (now : ℕ) (sid : Text) (cache : Cache V)
      → IsMap cache
      → load sid (evict_expired now cache) ≡ visible now cache sid
  unfolding load evict_expired
  load-evict_expired now sid [] h = refl
  load-evict_expired now sid ((k, e) ∷ cache) (new, h) = elim (eq_text_cases k sid) [
    | inl (q, same) ↦ elim (Bool-cases (is_expired now e)) [
      | inl old ↦
          rw (old, q)
            (rw old (
              load-evict_expired now sid cache h
              ∙ ap (alive now) (subst (λ j. load j cache ≡ none) same new)))
      | inr young ↦ rw (young, q) (rw young refl)
    ]
    | inr q ↦ elim (Bool-cases (is_expired now e)) [
      | inl old ↦ rw (old, q) (load-evict_expired now sid cache h)
      | inr young ↦ rw (young, q) (load-evict_expired now sid cache h)
    ]
  ]

  -- What is visible at a time stays visible, or not, whether or not the background sweep has run
  -- at an earlier time or at this one.
  pub visible-evict_expired :
      (now later : ℕ) (sid : Text) (cache : Cache V)
      → IsMap cache
      → now ≤ later
      → visible later (evict_expired now cache) sid ≡ visible later cache sid
  visible-evict_expired now later sid cache h le =
      ap (alive later) (load-evict_expired now sid cache h) ∙ twice (load sid cache)
    where
      twice : (o : Option (Entry V)) → alive later (alive now o) ≡ alive later o
      twice none = refl
      twice (some e) = ground arith

  -- `Get` returns what is visible, and leaves every other key alone.
  pub get_lem :
      (sid j : Text) (now : ℕ) (cache : Cache V)
      → ((get sid now cache).0 ≡ visible now cache sid)
        × (visible now (get sid now cache).1 j ≡ visible now cache j)
  unfolding get fetch
  get_lem sid j now cache = go (load sid cache) refl
    where
      go :
          (o : Option (Entry V))
          → load sid cache ≡ o
          → ((fetch sid now o cache).0 ≡ alive now o)
            × (visible now (fetch sid now o cache).1 j ≡ visible now cache j)
      go none e = (refl, refl)
      go (some x) e = elim (Bool-cases (is_expired now x)) [
        | inl old ↦ rw old (
          refl,
          rw (load-delete sid j cache) (elim (eq_text_cases sid j) [
            | inl (q, same) ↦
                rw q
                  (sym (ap (alive now) (subst (λ k. load k cache ≡ some x) same e) ∙ rw old refl))
            | inr q ↦ rw q refl
          ]),
        )
        | inr young ↦ rw young (refl, refl)
      ]

  -- What is put under a key is visible under it for ten minutes, the last instant included, and not
  -- after; every other key shows what it did.
  pub visible-put :
      (sid j : Text) (value : V) (now later : ℕ) (cache : Cache V)
      → visible later (put sid value now cache) j ≡ (
          if eq_text sid j
          then (if ltb (now + session_ttl) later
              then none
              else some
                  (record { value = value; created_at = now; expires_at = now + session_ttl }))
          else visible later cache j)
  unfolding put load
  visible-put sid j value now later cache = elim (Bool-cases (eq_text sid j)) [
    | inl q ↦ rw q refl
    | inr q ↦ rw q (ap (alive later) (load-delete sid j cache ∙ rw q refl))
  ]

  load-delete_self : (sid : Text) (cache : Cache V) → load sid (delete sid cache) ≡ none
  load-delete_self sid cache = load-delete sid sid cache ∙ rw (eq_text_refl sid) refl

  delete-IsMap : (sid : Text) (cache : Cache V) → IsMap cache → IsMap (delete sid cache)
  unfolding delete
  delete-IsMap sid [] h = tt
  delete-IsMap sid ((k, e) ∷ cache) (new, h) = elim (Bool-cases (eq_text k sid)) [
    | inl q ↦ rw q (delete-IsMap sid cache h)
    | inr q ↦ rw q (load-delete sid k cache ∙ ground (arith, new), delete-IsMap sid cache h)
  ]

  -- `Put` keeps the cache a map.
  pub put-IsMap :
      (sid : Text) (value : V) (now : ℕ) (cache : Cache V)
      → IsMap cache
      → IsMap (put sid value now cache)
  unfolding put
  put-IsMap sid value now cache h = (load-delete_self sid cache, delete-IsMap sid cache h)

  -- A stored entry that is alive is returned, and the cache stays as it is.
  pub get-alive :
      (sid : Text) (now : ℕ) (cache : Cache V) (e : Entry V)
      → load sid cache ≡ some e
      → now ≤ e.expires_at
      → get sid now cache ≡ (some e, cache)
  unfolding get fetch
  get-alive sid now cache e stored live = rw stored (rw (le→ltb e.expires_at now live) refl)

  pub load-put :
      (sid : Text) (value : V) (now : ℕ) (cache : Cache V)
      → load sid (put sid value now cache)
        ≡ some (record { value = value; created_at = now; expires_at = now + session_ttl })
  unfolding load put
  load-put sid value now cache = rw (eq_text_refl sid) refl
