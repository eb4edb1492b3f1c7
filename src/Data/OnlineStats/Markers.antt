-- ===== src/Data/OnlineStats/Markers.antt =====
-- src/data/featurespace/online_stats.py, `PSquareQuantile`: its five markers stay in order.
use stevehft.Prelude.{
  ℕ, ◌+◌, ◌-◌, ◌<◌, ◌≡◌, refl, sym, subst, Bool, true, false, List, [], ◌∷◌, set, length, nat_eq,
  if_lem, arith, if◌then◌else◌, length-set, Bool-cases, inl, inr,
}
use stevehft.Prelude.Float.{Float, nought, le, lt, neg, decimal}
use stevehft.Data.OnlineStats.Quantile.{
  PSquareQuantile, position_at, stepped, moves, move_marker, desired_delta, adjust_marker,
}

-- Five positions in order, the first 1 and the last the count of the values.
unfoldable pub IsOrdered : ℕ → List ℕ → Type 0
IsOrdered n ps = (a b c : ℕ) × (ps ≡ 1 ∷ a ∷ b ∷ c ∷ n ∷ []) × (1 < a) × (a < b) × (b < c) × (c < n)

ap-if {ℓ κ} :
    {A : Type ℓ} {B : Type κ} (g : A → B) (b : Bool) (x y : A)
    → g (if b then x else y) ≡ (if b then g x else g y)
ap-if g true x y = refl
ap-if g false x y = refl

module _ {W : Type 0} ⦃f : Float W⦄ where
  -- The positions once a marker that is off by `d` has been adjusted.
  unfoldable pub stepped_positions : ℕ → W → List ℕ → List ℕ
  stepped_positions idx d ps =
      if moves d (position_at ps (idx - 1)) (position_at ps idx) (position_at ps (idx + 1))
      then set ps idx (stepped (lt nought d) (position_at ps idx))
      else ps

  pub adjust_marker-positions :
      (idx : ℕ) (s : PSquareQuantile W)
      → (adjust_marker idx s).marker_positions
        ≡ stepped_positions idx (desired_delta idx s) s.marker_positions
  unfolding adjust_marker stepped_positions
  adjust_marker-positions idx s =
      ap-if (λ (q : PSquareQuantile W). q.marker_positions) _
        (move_marker idx (lt nought (desired_delta idx s)) s) s

  pub adjust_marker-heights :
      (idx : ℕ) (s : PSquareQuantile W)
      → length (adjust_marker idx s).marker_heights ≡ length s.marker_heights
  unfolding adjust_marker
  adjust_marker-heights idx s =
      if_lem (λ (q : PSquareQuantile W). length q.marker_heights ≡ length s.marker_heights) _
        (move_marker idx (lt nought (desired_delta idx s)) s) s
        (λ e. length-set s.marker_heights idx _) (λ e. refl)

  pub adjust_marker-count :
      (idx : ℕ) (s : PSquareQuantile W) → (adjust_marker idx s).sample_count ≡ s.sample_count
  unfolding adjust_marker
  adjust_marker-count idx s =
      if_lem (λ (q : PSquareQuantile W). q.sample_count ≡ s.sample_count) _
        (move_marker idx (lt nought (desired_delta idx s)) s) s (λ e. refl) (λ e. refl)

  moves_lem :
      ((x : W) → le (decimal 1 0) x ≡ true → lt nought x ≡ true)
      → ((x : W) → le x (neg (decimal 1 0)) ≡ true → lt nought x ≡ false)
      → (d : W) (p q r : ℕ) → p < q
      → q < r
      → moves d p q r ≡ true
      → (p < stepped (lt nought d) q) × (stepped (lt nought d) q < r)
  moves_lem up down d p q r pq qr h = elim (Bool-cases (lt nought d)) [
    | inl rises ↦
        rw rises (ground (arith, up d, down d, rises), ground (arith, up d, down d, rises))
    | inr falls ↦
        rw falls (ground (arith, up d, down d, falls), ground (arith, up d, down d, falls))
  ]

  pub stepped_positions-IsOrdered :
      ((x : W) → le (decimal 1 0) x ≡ true → lt nought x ≡ true)
      → ((x : W) → le x (neg (decimal 1 0)) ≡ true → lt nought x ≡ false)
      → (d : W) (n : ℕ) (ps : List ℕ) → IsOrdered n ps
      → IsOrdered n (stepped_positions 1 d ps)
        × IsOrdered n (stepped_positions 2 d ps)
        × IsOrdered n (stepped_positions 3 d ps)
  unfolding IsOrdered stepped_positions
  stepped_positions-IsOrdered up down d n ps (a, b, c, e, h1, h2, h3, h4) =
      let P = λ (ps : List ℕ).
        IsOrdered n (stepped_positions 1 d ps)
        × IsOrdered n (stepped_positions 2 d ps)
        × IsOrdered n (stepped_positions 3 d ps) in
      subst P (sym e) (
        if_lem (IsOrdered n) (moves d 1 a b) (1 ∷ stepped (lt nought d) a ∷ b ∷ c ∷ n ∷ [])
            (1 ∷ a ∷ b ∷ c ∷ n ∷ [])
            (λ m. let (l, r) = moves_lem up down d 1 a b h1 h2 m in (_, b, c, refl, l, r, h3, h4))
            (λ m. (a, b, c, refl, h1, h2, h3, h4)),
        if_lem (IsOrdered n) (moves d a b c) (1 ∷ a ∷ stepped (lt nought d) b ∷ c ∷ n ∷ [])
            (1 ∷ a ∷ b ∷ c ∷ n ∷ [])
            (λ m. let (l, r) = moves_lem up down d a b c h2 h3 m in (a, _, c, refl, h1, l, r, h4))
            (λ m. (a, b, c, refl, h1, h2, h3, h4)),
        if_lem (IsOrdered n) (moves d b c n) (1 ∷ a ∷ b ∷ stepped (lt nought d) c ∷ n ∷ [])
            (1 ∷ a ∷ b ∷ c ∷ n ∷ [])
            (λ m. let (l, r) = moves_lem up down d b c n h3 h4 m in (a, b, _, refl, h1, h2, l, r))
            (λ m. (a, b, c, refl, h1, h2, h3, h4)),
      )
