-- ===== src/Prelude/Dict/Sums.antt =====
-- Sums over the values of a dictionary, and that its keys are distinct.
use mathlib.Core.Path.{◌≡◌, refl}
use mathlib.Core.List.{[], ◌∷◌}
use mathlib.Core.Logic.{inl, inr}
use mathlib.Core.Option.{Option, none, some}
use Prim.Native.Nat.{ℕ, ◌+◌}
use native.Mathlib.Omega.{arith}
use stevehft.Prelude.Tests.{Eq, ◌==◌, Bool-cases}
use stevehft.Prelude.Dict.{Dict, lookup, insert, erase, lookup-insert, lookup-erase}

abbrev pub measure_of {κ} : {V : Type κ} → (V → ℕ) → Option V → ℕ
measure_of measure none = 0
measure_of measure (some v) = measure v

module _ {ℓ κ} {K : Type ℓ} {V : Type κ} (measure : V → ℕ) where
  abbrev pub sum_values : Dict K V → ℕ
  sum_values [] = 0
  sum_values ((k, v) ∷ d) = measure v + sum_values d

module _ {ℓ κ} {K : Type ℓ} {V : Type κ} ⦃e : Eq K⦄ where
  -- No key stands twice.
  abbrev pub IsDict : Dict K V → Type κ
  IsDict [] = Unit
  IsDict ((k, v) ∷ d) = (lookup k d ≡ none) × IsDict d

  pub insert-IsDict : (k : K) (v : V) (d : Dict K V) → IsDict d → IsDict (insert k v d)
  unfolding insert lookup
  insert-IsDict k v [] h = (refl, tt)
  insert-IsDict k v ((j, w) ∷ d) (fresh, h) = elim (Bool-cases (j == k)) [
    | inl same ↦ rw same (rw (← (e.equals_iff j k).0 same) fresh, h)
    | inr other ↦ rw other (
      ground (arith, lookup-insert k j v d, e.equals_iff j k, e.equals_iff k j),
      insert-IsDict k v d h,
    )
  ]

  pub erase-IsDict : (k : K) (d : Dict K V) → IsDict d → IsDict (erase k d)
  unfolding erase
  erase-IsDict k [] h = tt
  erase-IsDict k ((j, w) ∷ d) (fresh, h) = elim (Bool-cases (j == k)) [
    | inl same ↦ rw same (erase-IsDict k d h)
    | inr other ↦
        rw other (
          ground (arith, lookup-erase k j d, e.equals_iff j k, e.equals_iff k j),
          erase-IsDict k d h,
        )
  ]

  erase-absent : (k : K) (d : Dict K V) → lookup k d ≡ none → erase k d ≡ d
  unfolding erase lookup
  erase-absent k [] h = refl
  erase-absent k ((j, w) ∷ d) h = ground (arith, erase-absent k d)

  module _ (measure : V → ℕ) where
    pub sum_values-insert :
        (k : K) (v : V) (d : Dict K V)
        → sum_values measure (insert k v d) + measure_of measure (lookup k d)
          ≡ sum_values measure d + measure v
    unfolding insert lookup
    sum_values-insert k v [] = omega arith
    sum_values-insert k v ((j, w) ∷ d) = elim (Bool-cases (j == k)) [
      | inl same ↦ rw same (omega arith)
      | inr other ↦ rw other (omega (arith, sum_values-insert k v d))
    ]

    pub sum_values-erase :
        (k : K) (d : Dict K V)
        → IsDict d
        → sum_values measure (erase k d) + measure_of measure (lookup k d) ≡ sum_values measure d
    unfolding erase lookup
    sum_values-erase k [] h = refl
    sum_values-erase k ((j, w) ∷ d) (fresh, h) = elim (Bool-cases (j == k)) [
      | inl same ↦
          rw (same, erase-absent k d (rw (← (e.equals_iff j k).0 same) fresh)) (omega arith)
      | inr other ↦ rw other (omega (arith, sum_values-erase k d h))
    ]
