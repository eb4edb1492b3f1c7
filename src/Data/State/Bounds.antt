-- ===== src/Data/State/Bounds.antt =====
-- src/data/state.py: the queue ahead of a price, and the levels that cover a part of the volume.
use stevehft.Prelude.{
  ℕ, zero, suc, ◌≤◌, ◌<◌, ◌≡◌, ap, sym, ◌∙◌, subst, some-injective, String, Bool, true, false, none,
  some, List, [], ◌∷◌, length, ltb, if_lem, if◌then◌else◌, arith,
}
use stevehft.Prelude.Int.{pos_part}
use stevehft.Prelude.Float.{Float, nought, not_pos, add, mul, le, of_ℕ}
use stevehft.Prelude.Texts.{Texts}
use stevehft.Execution.Intents.{OrderSide}
use stevehft.Data.State.{BookLevel, SymbolState, side_named, book_side}
use stevehft.Data.State.Depth.{
  side_volume, on_side, levels_until, levels_to_cover, side_levels_to_cover,
  levels_to_cover_side_volume_fraction,
}

module _ {W : Type 0} ⦃f : Float W⦄ where
  -- The sum of the first sizes as the loop forms it.
  abbrev pub first_sizes : ℕ → List (BookLevel W) → W → W
  first_sizes zero book cumulative = cumulative
  first_sizes (suc n) [] cumulative = cumulative
  first_sizes (suc n) (level ∷ book) cumulative =
      first_sizes n book (add cumulative (of_ℕ (pos_part level.size)))

  -- `n` levels of the book are the fewest that reach the target, or all of them.
  abbrev pub IsLeast : W → List (BookLevel W) → W → ℕ → Type 0
  IsLeast target_volume book cumulative n =
      (n ≤ length book)
      × ((k : ℕ) → suc k < n → le target_volume (first_sizes (suc k) book cumulative) ≡ false)
      × (n < length book → le target_volume (first_sizes n book cumulative) ≡ true)

  not_yet :
      {target_volume : W} (book : List (BookLevel W)) (more : W) (n : ℕ)
      → le target_volume more ≡ false
      → ((k : ℕ) → suc k < n → le target_volume (first_sizes (suc k) book more) ≡ false)
      → (k : ℕ) → suc k < suc n
      → le target_volume (first_sizes k book more) ≡ false
  not_yet book more n e rest zero h = e
  not_yet book more n e rest (suc k) h = rest k (omega (arith, h))

  levels_until-IsLeast :
      (target_volume : W) (book : List (BookLevel W)) (cumulative : W)
      → IsLeast target_volume book cumulative (levels_until target_volume book cumulative)
  unfolding levels_until
  levels_until-IsLeast target_volume [] cumulative =
      (omega arith, (λ k h. absurd (omega arith)), λ h. absurd (omega arith))
  levels_until-IsLeast target_volume (level ∷ book) cumulative =
      let more = add cumulative (of_ℕ (pos_part level.size)) in
      let rest = levels_until-IsLeast target_volume book more in
      if_lem (IsLeast target_volume (level ∷ book) cumulative) (le target_volume more) 1 _
        (λ e. (omega arith, (λ k h. absurd (omega arith)), λ h. e))
        (λ e. (omega (arith, rest.0), not_yet book more _ e rest.1, λ h. rest.2 (omega (arith, h))))

  levels_to_cover-IsLeast :
      (fraction : W) (volume : ℕ) (book : List (BookLevel W))
      → ltb 0 (length book) ≡ true
      → IsLeast (mul fraction (of_ℕ volume)) book nought (levels_to_cover fraction volume book)
  levels_to_cover-IsLeast fraction volume [] some_level = absurd cc
  levels_to_cover-IsLeast fraction volume (level ∷ book) some_level =
      levels_until-IsLeast (mul fraction (of_ℕ volume)) (level ∷ book) nought

  side_levels_to_cover-IsLeast :
      (fraction : W) (is_local : Bool) (s : SymbolState W) (side : OrderSide)
      → ltb 0 (side_volume none is_local s side) ≡ true
      → ltb 0 (length (book_side side is_local s)) ≡ true
      → IsLeast
          (mul fraction (of_ℕ (side_volume none is_local s side)))
          (book_side side is_local s)
          nought
          (side_levels_to_cover fraction is_local s side)
  side_levels_to_cover-IsLeast fraction is_local s side volume some_level =
      let book = book_side side is_local s in
      let total = side_volume none is_local s side in
      if_lem (IsLeast (mul fraction (of_ℕ total)) book nought) (ltb 0 total)
        (levels_to_cover fraction total book) 0
        (λ e. levels_to_cover-IsLeast fraction total book some_level) (λ e. absurd cc)

  module _ ⦃texts : Texts⦄ where
    -- Of a book's side that has levels and volume, as many levels are taken as are needed for a
    -- positive fraction of the volume: fewer do not reach it, and these do unless they are all.
    pub levels_to_cover_side_volume_fraction-IsLeast :
        (side : String) (named : OrderSide) (fraction : W) (is_local : Bool) (s : SymbolState W)
        (n : ℕ)
        → side_named side ≡ some named
        → not_pos fraction ≡ false
        → ltb 0 (side_volume none is_local s named) ≡ true
        → ltb 0 (length (book_side named is_local s)) ≡ true
        → levels_to_cover_side_volume_fraction side fraction is_local s ≡ some n
        → IsLeast
            (mul fraction (of_ℕ (side_volume none is_local s named)))
            (book_side named is_local s)
            nought
            n
    unfolding levels_to_cover_side_volume_fraction
    levels_to_cover_side_volume_fraction-IsLeast side named fraction is_local s n en ef ev el e =
        let covering = side_levels_to_cover fraction is_local s in
        subst
          (IsLeast (mul fraction (of_ℕ (side_volume none is_local s named)))
            (book_side named is_local s) nought)
          (some-injective _ n (
            sym (ap (on_side covering) en)
            ∙ sym (ap (λ b. if b then some 0 else on_side covering (side_named side)) ef)
            ∙ e))
          (side_levels_to_cover-IsLeast fraction is_local s named ev el)
