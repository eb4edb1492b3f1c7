-- ===== src/Prelude/Dict/Entries.antt =====
-- The entries of a dictionary: each is found under its key, and no two have the same key.
use mathlib.Core.Path.{◌≡◌}
use mathlib.Core.Bool.{false}
use mathlib.Core.List.{[], ◌∷◌}
use mathlib.Core.Option.{none, some}
use mathlib.Core.Logic.{inl, inr}
use native.Mathlib.Omega.{arith}
use stevehft.Prelude.Tests.{Eq, ◌==◌, Bool-cases}
use stevehft.Prelude.Lists.{All}
use stevehft.Prelude.Sorting.{AllPairs}
use stevehft.Prelude.Dict.{Dict, lookup, ==_self}
use stevehft.Prelude.Dict.Sums.{IsDict}

module _ {ℓ κ} {K : Type ℓ} {V : Type κ} ⦃e : Eq K⦄ where
  abbrev pub IsEntry : Dict K V → K × V → Type κ
  IsEntry d p = lookup p.0 d ≡ some p.1

  abbrev pub KeysDiffer : K × V → K × V → Type 0
  KeysDiffer p q = (p.0 == q.0) ≡ false

  -- A key that is not found differs from all that are there.
  absent-KeysDiffer : (p : K × V) (d : Dict K V) → lookup p.0 d ≡ none → All (KeysDiffer p) d
  unfolding lookup
  absent-KeysDiffer p [] h = tt
  absent-KeysDiffer p ((k, v) ∷ d) h = elim (Bool-cases (k == p.0)) [
    | inl same ↦ absurd (cc (rw same at h))
    | inr other ↦ (
      ground (arith, e.equals_iff k p.0, e.equals_iff p.0 k),
      absent-KeysDiffer p d (rw other at h),
    )
  ]

  pub entries-KeysDiffer : (d : Dict K V) → IsDict d → AllPairs KeysDiffer d
  entries-KeysDiffer [] h = tt
  entries-KeysDiffer ((k, v) ∷ d) h = (absent-KeysDiffer (k, v) d h.0, entries-KeysDiffer d h.1)

  entries_cons :
      (p : K × V) (d rest : Dict K V)
      → All (KeysDiffer p) rest
      → All (IsEntry d) rest
      → All (IsEntry (p ∷ d)) rest
  unfolding lookup
  entries_cons p d [] h f = tt
  entries_cons (k, v) d ((j, w) ∷ rest) h f = (rw h.0 f.0, entries_cons (k, v) d rest h.1 f.1)

  pub entries-IsEntry : (d : Dict K V) → IsDict d → All (IsEntry d) d
  unfolding lookup
  entries-IsEntry [] h = tt
  entries-IsEntry ((k, v) ∷ d) h = (
    rw (==_self k),
    entries_cons (k, v) d d (absent-KeysDiffer (k, v) d h.0) (entries-IsEntry d h.1),
  )
