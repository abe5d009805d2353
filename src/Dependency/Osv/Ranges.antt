-- ===== src/Dependency/Osv/Ranges.antt =====
-- Theorems on `isAffected`: the event loop against intervals of versions.
use Prim.Native.Nat.{Ordering}
use pci_dss_mcp.Common.{
  ◌≡◌, refl, ap, ◌∙◌, ◌≢◌, inl, inr, Bool, true, false, ◌&&◌, ◌||◌, not, Option, none, some, List,
  [], ◌∷◌, map, arith, Text, codes, eq_text, if◌then◌else◌, Bool-cases, any, All,
}
use pci_dss_mcp.Dependency.Osv.{Event, Range, normalize_version, at_least, event_loop, is_affected}

-- The affected versions from one on, up to another one or for ever.
pub record Interval : Type 0 where
  pub from : Text
  pub until : Option Text

-- The events that OSV writes for intervals.
abbrev pub introduced_at : Text → Event
introduced_at v = record { introduced = v; fixed = []; last_affected = [] }

abbrev pub fixed_at : Text → Event
fixed_at v = record { introduced = []; fixed = v; last_affected = [] }

abbrev pub events_of : List Interval → List Event
events_of [] = []
events_of (iv ∷ ivs) = events_from iv.from iv.until (events_of ivs)
  where
    events_from : Text → Option Text → List Event → List Event
    events_from v none rest = introduced_at v ∷ rest
    events_from v (some f) rest = introduced_at v ∷ fixed_at f ∷ rest

module _ (compare : Text → Text → Ordering) (version : Text) where
  abbrev reached : Text → Bool
  reached v = at_least compare version (normalize_version v)

  abbrev pub is_past : Option Text → Bool
  is_past none = false
  is_past (some f) = reached f

  abbrev pub is_started : Text → Bool
  is_started v = eq_text v (codes "0") || reached v

  -- The version lies in the interval.
  abbrev pub is_inside : Interval → Bool
  is_inside iv = is_started iv.from && not (is_past iv.until)

  event_loop-introduced :
      (v : Text) (affected : Bool) (rest : List Event)
      → v ≢ []
      → event_loop compare version affected (introduced_at v ∷ rest)
        ≡ event_loop compare version (if is_started v then true else affected) rest
  unfolding event_loop
  event_loop-introduced [] affected rest h = absurd (h refl)
  event_loop-introduced (c ∷ v) affected rest h = refl

  event_loop-fixed :
      (v : Text) (affected : Bool) (rest : List Event)
      → v ≢ []
      → event_loop compare version affected (fixed_at v ∷ rest)
        ≡ event_loop compare version (if reached v then false else affected) rest
  unfolding event_loop
  event_loop-fixed [] affected rest h = absurd (h refl)
  event_loop-fixed (c ∷ v) affected rest h = refl

event_loop_nil :
    (compare : Text → Text → Ordering) (version : Text) (affected : Bool)
    → event_loop compare version affected [] ≡ affected
unfolding event_loop
event_loop_nil compare version affected = refl

nil_flags : (a : Bool) → a ≡ (false || a && not false)
nil_flags true = refl
nil_flags false = refl

one_flags :
    (past started a : Bool)
    → (if past then false else if started then true else a)
      ≡ (started && not past || false || a && not past)
one_flags past started a = ground arith

more_flags :
    (past started a later i r : Bool)
    → (past ≡ false → later ≡ false)
    → (i || r || (if past then false else if started then true else a) && not later)
      ≡ (started && not past || (i || r) || a && not past)
more_flags past started a later i r h = ground (arith, h)

-- The fixed versions rise, and only the last interval is open.
abbrev pub Precedes : (Text → Text → Ordering) → Option Text → Option Text → Type 0
Precedes compare none later = ⊥
Precedes compare (some f) none = Unit
Precedes compare (some f) (some g) =
    at_least compare (normalize_version g) (normalize_version f) ≡ true

abbrev pub IsGiven : Interval → Type 0
IsGiven iv = (iv.from ≢ []) × (iv.until ≢ some [])

abbrev pub Rising : (Text → Text → Ordering) → List Interval → Type 0
Rising compare [] = Unit
Rising compare (iv ∷ []) = IsGiven iv
Rising compare (iv ∷ next ∷ ivs) =
    IsGiven iv × Precedes compare iv.until next.until × Rising compare (next ∷ ivs)

abbrev pub IsTransitive : (Text → Text → Ordering) → Type 0
IsTransitive compare =
    (a b c : Text)
    → at_least compare a b ≡ true
    → at_least compare b c ≡ true
    → at_least compare a c ≡ true

abbrev pub semver : List Interval → Range
semver ivs = record { range_type = codes "SEMVER"; events = events_of ivs }

module _ (compare : Text → Text → Ordering) (trans : IsTransitive compare) (version : Text) where
  abbrev past_first : List Interval → Bool
  past_first [] = false
  past_first (iv ∷ ivs) = is_past compare version iv.until

  -- A version that has not passed one fix has not passed a later one.
  Precedes-is_past :
      (f g : Option Text)
      → Precedes compare f g
      → is_past compare version f ≡ false
      → is_past compare version g ≡ false
  Precedes-is_past none g p h = absurd p
  Precedes-is_past (some f) none p h = refl
  Precedes-is_past (some f) (some g) p h =
      elim (Bool-cases (at_least compare version (normalize_version g))) [
        | inl yes' ↦ ground (arith, trans _ _ _ yes' p, h)
        | inr no' ↦ no'
      ]

  -- The loop over one interval.
  event_loop-interval :
      (iv : Interval) (affected : Bool) (ivs : List Interval)
      → IsGiven iv
      → event_loop compare version affected (events_of (iv ∷ ivs))
        ≡ event_loop compare version
            (if is_past compare version iv.until
              then false
              else if is_started compare version iv.from
              then true
              else affected)
            (events_of ivs)
  event_loop-interval iv affected ivs (given, closed) = go iv.until closed
    where
      go :
          (u : Option Text)
          → u ≢ some []
          → event_loop compare version affected
              (events_of (record { from = iv.from; until = u } ∷ ivs))
            ≡ event_loop compare version
                (if is_past compare version u
                  then false
                  else if is_started compare version iv.from
                  then true
                  else affected)
                (events_of ivs)
      go none h = event_loop-introduced compare version iv.from affected (events_of ivs) given
      go (some f) h =
          event_loop-introduced compare version iv.from affected _ given
          ∙ event_loop-fixed compare version f _ (events_of ivs) (λ e. h (ap some e))

  event_loop_lem :
      (ivs : List Interval) (affected : Bool)
      → Rising compare ivs
      → event_loop compare version affected (events_of ivs)
        ≡ (any (is_inside compare version) ivs || affected && not (past_first ivs))
  event_loop_lem [] affected h = event_loop_nil compare version affected ∙ nil_flags affected
  event_loop_lem (iv ∷ []) affected h =
      event_loop-interval iv affected [] h
      ∙ (event_loop_nil compare version _
          ∙ one_flags (is_past compare version iv.until) (is_started compare version iv.from)
              affected)
  event_loop_lem (iv ∷ next ∷ ivs) affected (given, p, h) =
      event_loop-interval iv affected (next ∷ ivs) given
      ∙ (event_loop_lem (next ∷ ivs) _ h
          ∙ more_flags (is_past compare version iv.until) (is_started compare version iv.from)
              affected (is_past compare version next.until) (is_inside compare version next) _
              (Precedes-is_past iv.until next.until p))

  drop_flag : (a : Bool) (b : Bool) → (a || false && b) ≡ a
  drop_flag true b = refl
  drop_flag false b = refl

  -- For ranges of SEMVER type that list intervals whose fixed versions rise and of which only the last
  -- is open, and for an order of versions that is transitive, a version is affected exactly if it lies
  -- in one of the intervals: at or behind the version that introduces, and before the one that fixes.
  pub is_affected_lem :
      (ranges : List (List Interval))
      → All (Rising compare) ranges
      → is_affected compare version (map semver ranges)
        ≡ any (any (is_inside compare version)) ranges
  unfolding is_affected eq_text
  is_affected_lem [] h = refl
  is_affected_lem (ivs ∷ ranges) (rising, h) = rw (event_loop_lem ivs false rising) (
      rw (drop_flag _ (not (past_first ivs)))
        (ap (λ b. any (is_inside compare version) ivs || b) (is_affected_lem ranges h)))
