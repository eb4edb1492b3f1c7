-- ===== src/Data/Lut/Evaluated.antt =====
-- src/data/featurespace/lut.py, `PiecewiseLinearLut.evaluate`: where a table has a value.
use stevehft.Prelude.{
  HasValue, ℕ, zero, suc, ◌<◌, ◌≡◌, refl, ap, sym, subst, true, false, Option, none, some, ◌>>=◌,
  Holds, Holds-bind, List, [], ◌∷◌, length, map, get_elem?, All, if_lem, if◌then◌else◌, arith,
}
use stevehft.Prelude.Float.{Float, le, lt}
use stevehft.Data.Lut.{
  LookupPoint, last_of, left_of, bisect_right, evaluate, evaluate_above, evaluate_between,
}

module _ {ℓ} {A : Type ℓ} where
  pub elem-in_range : (xs : List A) (i : ℕ) → i < length xs → HasValue (get_elem? xs i)
  elem-in_range [] i h = absurd (omega (arith, h))
  elem-in_range (x ∷ xs) zero h = tt
  elem-in_range (x ∷ xs) (suc i) h = elem-in_range xs i (omega (arith, h))

module _ {W : Type 0} where
  -- The breakpoints of a table.
  abbrev pub xs_of : List (LookupPoint W) → List W
  xs_of points = map (λ (p : LookupPoint W). p.x) points

  pub length-xs_of : (points : List (LookupPoint W)) → length (xs_of points) ≡ length points
  length-xs_of [] = refl
  length-xs_of (p ∷ points) = ap suc (length-xs_of points)

module _ {W : Type 0} ⦃f : Float W⦄ where
  -- `x` can be compared with the values: it is below those that it does not reach.
  abbrev pub IsComparable : W → List W → Type 0
  IsComparable x xs = All (λ (b : W). le b x ≡ false → lt x b ≡ true) xs

  -- None of them is a NaN: any two can be compared.
  abbrev pub AreNumbers : List W → Type 0
  AreNumbers xs = All (λ (x : W). IsComparable x xs) xs

  -- The last point of a table is there, and has what all breakpoints have.
  last_of-Holds :
      (P : W → Type 0) (p : LookupPoint W) (points : List (LookupPoint W))
      → All P (xs_of (p ∷ points))
      → Holds (λ (last : LookupPoint W). P last.x) (last_of (p ∷ points))
  last_of-Holds P p [] h = h.0
  last_of-Holds P p (q ∷ points) h = last_of-Holds P q points h.1

  left_of-in_range :
      (p : LookupPoint W) (points : List (LookupPoint W)) (i : ℕ)
      → i < length (p ∷ points)
      → HasValue (left_of (p ∷ points) i)
  left_of-in_range p points zero h = last_of-Holds (λ x. Unit {0}) p points (all_unit (p ∷ points))
    where
      all_unit : (points : List (LookupPoint W)) → All (λ (x : W). Unit {0}) (xs_of points)
      all_unit [] = tt
      all_unit (p ∷ points) = (tt, all_unit points)
  left_of-in_range p points (suc i) h = elem-in_range (p ∷ points) i (omega (arith, h))

  -- A query below the last breakpoint has a point to its right.
  bisect_right_bound :
      (query : W) (p : LookupPoint W) (points : List (LookupPoint W))
      → Holds (λ (last : LookupPoint W). lt query last.x ≡ true) (last_of (p ∷ points))
      → bisect_right (p ∷ points) query < length (p ∷ points)
  unfolding bisect_right
  bisect_right_bound query p [] h = ground (arith, h)
  bisect_right_bound query p (q ∷ points) h = ground (arith, bisect_right_bound query q points h)

  evaluate_between_total :
      (query : W) (p : LookupPoint W) (points : List (LookupPoint W))
      → bisect_right (p ∷ points) query < length (p ∷ points)
      → HasValue (evaluate_between query (p ∷ points))
  evaluate_between_total query p points h =
      let i = bisect_right (p ∷ points) query in
      Holds-bind (λ left. Unit {0}) (λ (y : W). Unit {0}) (left_of (p ∷ points) i) _
        (left_of-in_range p points i h)
        (λ left l.
          Holds-bind (λ right. Unit {0}) (λ (y : W). Unit {0}) (get_elem? (p ∷ points) i) _
            (elem-in_range (p ∷ points) i h) (λ right r. tt))

  evaluate_above_total :
      (query : W) (p : LookupPoint W) (points : List (LookupPoint W)) (o : Option (LookupPoint W))
      → last_of (p ∷ points) ≡ o
      → Holds (λ (last : LookupPoint W). le last.x query ≡ false → lt query last.x ≡ true) o
      → HasValue (
          o >>= λ last.
          if le last.x query then some last.y else evaluate_between query (p ∷ points))
  evaluate_above_total query p points none e h = h
  evaluate_above_total query p points (some last) e h =
      if_lem HasValue (le last.x query) (some last.y) (evaluate_between query (p ∷ points))
        (λ reached. tt)
        (λ below. evaluate_between_total query p points (
          bisect_right_bound query p points
            (subst (Holds (λ (q : LookupPoint W). lt query q.x ≡ true)) (sym e) (h below))))

  -- A table of at least one point has a value wherever the query can be compared with its points.
  evaluate_total :
      (query : W) (points : List (LookupPoint W))
      → 0 < length points
      → IsComparable query (xs_of points)
      → HasValue (evaluate query points)
  unfolding evaluate
  evaluate_total query [] p h = absurd (omega (arith, p))
  evaluate_total query (p ∷ points) enough h =
      if_lem HasValue (le query p.x) (some p.y) (evaluate_above query (p ∷ points)) (λ e. tt)
        (λ e.
          evaluate_above_total query p points (last_of (p ∷ points)) refl
            (last_of-Holds (λ b. le b query ≡ false → lt query b ≡ true) p points h))

  pub evaluate_over :
      (query : W) (points : List (LookupPoint W)) (xs : List W)
      → xs_of points ≡ xs
      → 0 < length xs
      → IsComparable query xs
      → HasValue (evaluate query points)
  evaluate_over query points xs e p h =
      evaluate_total query points (omega (arith, length-xs_of points, ap length e, p))
        (subst (IsComparable query) (sym e) h)
