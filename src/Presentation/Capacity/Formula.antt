-- ===== src/Presentation/Capacity/Formula.antt =====
-- The quota check of a queue against the formula that the report prints beside it.
use volens.Base.{◌≡◌, Bool, true, false, not, ◌&&◌, ◌||◌, Option, none, some, is_empty}
use volens.Base.Int.{ℤ, pos, ◌+ℤ◌, ◌-ℤ◌, ltb_ℤ, leb_ℤ}
use volens.Base.Dict.{Dict, or_zero}
use volens.Cluster.{Amounts}
use volens.Model.{QueueResourceValue}
use volens.Presentation.Queue.{candidate_value}
use volens.Presentation.Capacity.{Shortfalls}

-- `need = MinReq + allocated + inqueue - elastic`, from the amounts of the queue; what is elastic
-- counts as 0 where it is not known, and there is no need where another amount is not known.
abbrev pub need : ℤ → QueueResourceValue → Option ℤ
need candidate v = elim v.allocated [
  | none ↦ none
  | some allocated ↦ elim v.inqueue [
    | none ↦ none
    | some inqueue ↦ some (candidate +ℤ allocated +ℤ inqueue -ℤ or_zero (pos 0) v.elastic)
  ]
]

abbrev pub is_at_most : Option ℤ → Option ℤ → Bool
is_at_most (some need) (some capability) = leb_ℤ need capability
is_at_most (some need) none = false
is_at_most none capability = false

-- `permit iff need <= realCapability`, for a resource of which something is asked for.
abbrev pub permits : QueueResourceValue → Bool
permits v = elim v.candidate [
  | none ↦ true
  | some candidate ↦ leb_ℤ candidate (pos 0) || is_at_most (need candidate v) v.capability
]

-- The test of the loop.
abbrev fits_available : QueueResourceValue → Bool
fits_available v = elim v.candidate [
  | none ↦ true
  | some candidate ↦
      leb_ℤ candidate (pos 0)
      || (elim v.available [ none ↦ false | some available ↦ not (ltb_ℤ available candidate) ])
]

abbrev nothing_short : Shortfalls → Bool
nothing_short s = is_empty s.missing && is_empty s.uncertain

-- The two tests agree.
abbrev IsConsistent : QueueResourceValue → Type 0
IsConsistent v = fits_available v ≡ permits v

-- A value to which the formula has not been applied.
abbrev IsFresh : QueueResourceValue → Type 0
IsFresh v = (v.candidate ≡ none) × (v.available ≡ none) × (v.required ≡ none)

-- The tests agree now, and do so with any candidate.
pub record IsSettled (v : QueueResourceValue) : Type 0 where
  pub now_consistent : IsConsistent v
  pub then_consistent : (c : ℤ) → IsConsistent (candidate_value c v)
