-- ===== src/Data/BookCache/Subtracted.antt =====
-- src/data/book_cache.py, `_subtract_own_local_orders`: what is left at each price.
use stevehft.Prelude.{
  Bool, true, not, refl, any, length, ltb→lt, ◌<◌, ℕ, ◌+◌, ◌-◌, ◌≡◌, ap, ◌∙◌, String, some, List,
  [], ◌∷◌, All, ltb, Bool-cases, inl, inr, if_lem, ◌==◌, if◌then◌else◌, arith,
}
use stevehft.Prelude.Int.{ℤ, pos, pos_part, neg_part, ◌-ℤ◌, -ℤ_parts, int_eq}
use stevehft.Prelude.Dict.{Dict, lookup, insert, get_or, lookup-insert}
use stevehft.Prelude.Float.{Float}
use stevehft.Execution.Intents.{OrderSide}
use stevehft.Execution.Orders.{WorkingOrder, remaining_size}
use stevehft.Execution.Ledger.{OrderLedger}
use stevehft.Execution.Ledger.Live.{live_orders}
use stevehft.Data.State.{BookLevel}
use stevehft.Data.BookCache.{
  price_key, is_unlisted, add_own, remove_from, left_size, clean_levels, clean_unless_empty,
  subtract_own_local_orders,
}

-- What is left to remove at a price once a level has been passed.
remove_from_lem :
    (there key : ℤ) (size : ℤ) (own : Dict ℤ ℕ)
    → neg_part size ≡ 0
    → get_or (lookup key (remove_from there (get_or (lookup there own) 0) size own)) 0 ≡ (
        if there == key
        then get_or (lookup there own) 0 - pos_part size
        else get_or (lookup key own) 0)
remove_from_lem there key size own count =
    let r = get_or (lookup there own) 0 in
    if_lem
      (λ (d : Dict ℤ ℕ).
        get_or (lookup key d) 0
        ≡ (if there == key then r - pos_part size else get_or (lookup key own) 0))
      (ltb 0 r) (insert there (pos_part (pos r -ℤ size)) own) own
      (λ e. ground (
        arith,
        lookup-insert there key (pos_part (pos r -ℤ size)) own,
        -ℤ_parts (pos r) size,
        count,
      ))
      (λ e. ground (arith, int_eq.equals_iff there key, e))

insert_some : (k : ℤ) (v : ℕ) (d : Dict ℤ ℕ) → 0 < length (insert k v d)
unfolding insert
insert_some k v [] = omega arith
insert_some k v ((j, w) ∷ d) = ground arith

module _ {W : Type 0} ⦃f : Float W⦄ where
  -- The size that stands in a book at one price.
  unfoldable pub size_at : ℤ → List (BookLevel W) → ℕ
  size_at key [] = 0
  size_at key (level ∷ levels) =
      let rest = size_at key levels in
      if price_key level.price == key then pos_part level.size + rest else rest

  -- The size of the orders that stand in the broker's book at one price.
  unfoldable pub own_at : ℤ → List (WorkingOrder W) → ℕ
  own_at key [] = 0
  own_at key (o ∷ os) =
      let rest = own_at key os in
      if is_unlisted o
      then rest
      else if price_key o.price == key
      then remaining_size o + rest
      else rest

  unfoldable pub IsCount : BookLevel W → Type 0
  IsCount level = neg_part level.size ≡ 0

  add_own_lem :
      (key : ℤ) (os : List (WorkingOrder W)) (own : Dict ℤ ℕ)
      → get_or (lookup key (add_own os own)) 0 ≡ get_or (lookup key own) 0 + own_at key os
  unfolding add_own own_at
  add_own_lem key [] own = omega arith
  add_own_lem key (o ∷ os) own = elim (Bool-cases (is_unlisted o)) [
    | inl unlisted ↦ rw unlisted (add_own_lem key os own)
    | inr listed ↦ rw listed (
        let there = price_key o.price in
        let own' = insert there (get_or (lookup there own) 0 + remaining_size o) own in
        ground (
          arith,
          add_own_lem key os own',
          lookup-insert there key (get_or (lookup there own) 0 + remaining_size o) own,
          int_eq.equals_iff there key,
        ))
  ]

  kept_lem :
      (key : ℤ) (level : BookLevel W) (n : ℕ) (rest : List (BookLevel W))
      → size_at key (if ltb 0 n then record level { size = pos n } ∷ rest else rest)
        ≡ (if price_key level.price == key then n else 0) + size_at key rest
  unfolding size_at
  kept_lem key level n rest = ground arith

  clean_levels_lem :
      (key : ℤ) (levels : List (BookLevel W)) (own : Dict ℤ ℕ)
      → All IsCount levels
      → size_at key (clean_levels levels own) ≡ size_at key levels - get_or (lookup key own) 0
  unfolding clean_levels size_at IsCount
  clean_levels_lem key [] own count = omega arith
  clean_levels_lem key (level ∷ levels) own (count, counts) =
      let there = price_key level.price in
      let r = get_or (lookup there own) 0 in
      let own' = remove_from there r level.size own in
      let n = left_size r (pos_part level.size) in
      let rest = clean_levels_lem key levels own' counts in
      kept_lem key level n (clean_levels levels own')
      ∙ ground
          (arith, rest, remove_from_lem there key level.size own count, int_eq.equals_iff there key)

  add_own_all :
      (key : ℤ) (os : List (WorkingOrder W)) → get_or (lookup key (add_own os [])) 0 ≡ own_at key os
  unfolding lookup
  add_own_all key os = add_own_lem key os [] ∙ omega arith

  clean_unless_empty_lem :
      (key : ℤ) (own : Dict ℤ ℕ) (levels : List (BookLevel W))
      → All IsCount levels
      → size_at key (clean_unless_empty own levels) ≡ size_at key levels - get_or (lookup key own) 0
  unfolding lookup
  clean_unless_empty_lem key [] levels count = omega arith
  clean_unless_empty_lem key (entry ∷ own) levels count =
      clean_levels_lem key levels (entry ∷ own) count

  -- Some of a level is left.
  unfoldable pub HasSize : BookLevel W → Type 0
  HasSize level = (0 < pos_part level.size) × (neg_part level.size ≡ 0)

  clean_levels-HasSize :
      (levels : List (BookLevel W)) (own : Dict ℤ ℕ) → All HasSize (clean_levels levels own)
  unfolding clean_levels HasSize
  clean_levels-HasSize [] own = tt
  clean_levels-HasSize (level ∷ levels) own =
      let there = price_key level.price in
      let r = get_or (lookup there own) 0 in
      let own' = remove_from there r level.size own in
      let n = left_size r (pos_part level.size) in
      if_lem (All HasSize) (ltb 0 n) (record level { size = pos n } ∷ clean_levels levels own')
        (clean_levels levels own') (λ e. ((ltb→lt 0 n e, refl), clean_levels-HasSize levels own'))
        (λ e. clean_levels-HasSize levels own')

  HasSize-IsCount : (levels : List (BookLevel W)) → All HasSize levels → All IsCount levels
  unfolding HasSize IsCount
  HasSize-IsCount [] h = tt
  HasSize-IsCount (level ∷ levels) (p, h) = (p.1, HasSize-IsCount levels h)

  clean_unless_empty-IsCount :
      (own : Dict ℤ ℕ) (levels : List (BookLevel W))
      → All IsCount levels
      → All IsCount (clean_unless_empty own levels)
  clean_unless_empty-IsCount [] levels count = count
  clean_unless_empty-IsCount (entry ∷ own) levels count =
      HasSize-IsCount (clean_levels levels (entry ∷ own))
        (clean_levels-HasSize levels (entry ∷ own))

  clean_unless_empty-HasSize :
      (own : Dict ℤ ℕ) (levels : List (BookLevel W))
      → 0 < length own
      → All HasSize (clean_unless_empty own levels)
  clean_unless_empty-HasSize [] levels p = absurd (omega (arith, p))
  clean_unless_empty-HasSize (entry ∷ own) levels p = clean_levels-HasSize levels (entry ∷ own)

  -- The order stands in the broker's book.
  abbrev pub is_listed : WorkingOrder W → Bool
  is_listed o = not (is_unlisted o)

  add_own-grows :
      (os : List (WorkingOrder W)) (own : Dict ℤ ℕ) → 0 < length own → 0 < length (add_own os own)
  unfolding add_own
  add_own-grows [] own p = p
  add_own-grows (o ∷ os) own p = add_own-grows os _ (
      if_lem (λ (d : Dict ℤ ℕ). 0 < length d) (is_unlisted o) own
        (insert (price_key o.price) (get_or (lookup (price_key o.price) own) 0 + remaining_size o)
          own)
        (λ e. p) (λ e. insert_some _ _ own))

  add_own-listed :
      (os : List (WorkingOrder W)) (own : Dict ℤ ℕ)
      → any is_listed os ≡ true
      → 0 < length (add_own os own)
  unfolding add_own
  add_own-listed [] own h = absurd (ground (arith, h))
  add_own-listed (o ∷ os) own h = elim (Bool-cases (is_unlisted o)) [
    | inl unlisted ↦ rw unlisted (add_own-listed os own (ground (arith, h, unlisted)))
    | inr listed ↦ rw listed (add_own-grows os _ (insert_some _ _ own))
  ]

  -- What `_subtract_own_local_orders` leaves at a price of a book whose sizes are not negative is the
  -- size that the broker reports there, less the size of the program's own live orders that stand
  -- there, and nothing if these have more. No size that is left is negative, and if any of these orders
  -- stands in the broker's book, then no level is left without a size.
  pub subtract_own_local_orders_lem :
      (l : OrderLedger W) (symbol : String) (side : OrderSide) (levels : List (BookLevel W))
      (key : ℤ)
      → All IsCount levels
      → (size_at key (subtract_own_local_orders (some l) symbol side levels)
          ≡ size_at key levels - own_at key (live_orders (some symbol) (some side) l))
        × All IsCount (subtract_own_local_orders (some l) symbol side levels)
        × (any is_listed (live_orders (some symbol) (some side) l) ≡ true
            → All HasSize (subtract_own_local_orders (some l) symbol side levels))
  unfolding subtract_own_local_orders size_at
  subtract_own_local_orders_lem l symbol side [] key count = (omega arith, tt, (λ e. tt))
  subtract_own_local_orders_lem l symbol side (level ∷ levels) key count =
      let orders = live_orders (some symbol) (some side) l in
      let own = add_own orders [] in
      (
        clean_unless_empty_lem key own (level ∷ levels) count
            ∙ ap (λ n. size_at key (level ∷ levels) - n) (add_own_all key orders),
        clean_unless_empty-IsCount own (level ∷ levels) count,
        λ e. clean_unless_empty-HasSize own (level ∷ levels) (add_own-listed orders [] e),
      )
