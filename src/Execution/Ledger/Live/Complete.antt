-- ===== src/Execution/Ledger/Live/Complete.antt =====
-- The list of live orders has what it should have, and nothing else.
use stevehft.Prelude.{
  ◌≡◌, refl, arith, String, Bool, true, false, not, ◌||◌, Option, List, [], ◌∷◌, ◌++◌, any, All,
  select, Bool-cases, inl, inr, if_lem, nat_eq, string_eq, ◌==◌, if◌then◌else◌,
}
use stevehft.Prelude.Dict.{values, ==_self}
use stevehft.Execution.Intents.{OrderSide}
use stevehft.Execution.Ledger.{OrderLedger}
use stevehft.Execution.Ledger.Store.{Object, resolve, slot_objects}
use stevehft.Execution.Ledger.Live.{is_wanted, has_ref, has_id, live_loop, live_objects}

any-append {ℓ} :
    {A : Type ℓ} (test : A → Bool) (xs ys : List A)
    → any test xs ≡ true
    → any test (xs ++ ys) ≡ true
any-append test [] ys h = absurd cc
any-append test (x ∷ xs) ys h = elim (Bool-cases (test x)) [
  | inl here ↦ rw here refl
  | inr there ↦ rw there (any-append test xs ys (rw there at h))
]

any-append_last {ℓ} :
    {A : Type ℓ} (test : A → Bool) (xs : List A) (y : A)
    → test y ≡ true
    → any test (xs ++ (y ∷ [])) ≡ true
any-append_last test [] y h = rw h refl
any-append_last test (x ∷ xs) y h = elim (Bool-cases (test x)) [
  | inl here ↦ rw here refl
  | inr there ↦ rw there (any-append_last test xs y h)
]

All-append_last {ℓ κ} :
    {A : Type ℓ} (P : A → Type κ) (xs : List A) (y : A) → All P xs → P y → All P (xs ++ (y ∷ []))
All-append_last P [] y h p = (p, tt)
All-append_last P (x ∷ xs) y h p = (h.0, All-append_last P xs y h.1 p)

All-selected {ℓ} :
    {A : Type ℓ} (test : A → Bool) (xs : List A) → All (λ x. test x ≡ true) (select test xs)
All-selected test [] = tt
All-selected test (x ∷ xs) =
    if_lem (All (λ y. test y ≡ true)) (test x) (x ∷ select test xs) (select test xs)
      (λ e. (e, All-selected test xs)) (λ e. All-selected test xs)

covered : (w r i : Bool) → w ≡ true → not w || r || i ≡ true → r || i ≡ true
covered w r i h e = ground arith

unskipped : (w r i : Bool) → not w || r || i ≡ false → w ≡ true
unskipped w r i e = ground arith

either :
    (r i r' i' : Bool)
    → (r ≡ true → r' ≡ true)
    → (i ≡ true → i' ≡ true)
    → r || i ≡ true
    → r' || i' ≡ true
either true i true i' f g h = refl
either true i false i' f g h = absurd (cc (f refl))
either false i r' i' f g h = rw (g h) (or_true r')
  where
    or_true : (b : Bool) → b || true ≡ true
    or_true true = refl
    or_true false = refl

module _ {W : Type 0} (symbol : Option String) (side : Option OrderSide) where
  abbrev pub Wanted : Object W → Type 0
  Wanted o = is_wanted symbol side o ≡ true

  abbrev skips : List (Object W) → Object W → Bool
  skips live o = not (is_wanted symbol side o) || has_ref live o || has_id live o.1.order_id

  -- The list after an object has been looked at.
  abbrev next : List (Object W) → Object W → List (Object W)
  next live o = if skips live o then live else live ++ (o ∷ [])

  -- The list has the object, or one with its id.
  abbrev pub Covers : List (Object W) → Object W → Type 0
  Covers live o = has_ref live o || has_id live o.1.order_id ≡ true

  next-Covers : (live : List (Object W)) (o : Object W) → Wanted o → Covers (next live o) o
  unfolding has_ref has_id
  next-Covers live o w =
      if_lem (λ seen. Covers seen o) (skips live o) live (live ++ (o ∷ []))
        (λ e. covered (is_wanted symbol side o) (has_ref live o) (has_id live o.1.order_id) w e)
        (λ e.
          either true false _ _ (λ h. any-append_last (λ s. s.0 == o.0) live o (==_self o.0))
            (λ h. absurd cc) refl)

  next-kept : (live : List (Object W)) (x o : Object W) → Covers live o → Covers (next live x) o
  unfolding has_ref has_id
  next-kept live x o c =
      if_lem (λ seen. Covers seen o) (skips live x) live (live ++ (x ∷ [])) (λ e. c)
        (λ e.
          either (has_ref live o) (has_id live o.1.order_id) _ _
            (any-append (λ s. s.0 == o.0) live (x ∷ []))
            (any-append (λ s. s.1.order_id == o.1.order_id) live (x ∷ [])) c)

  next-Wanted : (live : List (Object W)) (o : Object W) → All Wanted live → All Wanted (next live o)
  next-Wanted live o h =
      if_lem (All Wanted) (skips live o) live (live ++ (o ∷ [])) (λ e. h)
        (λ e.
          All-append_last Wanted live o h
            (unskipped (is_wanted symbol side o) (has_ref live o) (has_id live o.1.order_id) e))

  live_loop-kept :
      (objects live : List (Object W)) (o : Object W)
      → Covers live o
      → Covers (live_loop symbol side live objects) o
  unfolding live_loop
  live_loop-kept [] live o c = c
  live_loop-kept (x ∷ rest) live o c = live_loop-kept rest (next live x) o (next-kept live x o c)

  live_loop-Covers :
      (objects live : List (Object W))
      → All (λ o. Wanted o → Covers (live_loop symbol side live objects) o) objects
  unfolding live_loop
  live_loop-Covers [] live = tt
  live_loop-Covers (x ∷ rest) live = (
    λ w. live_loop-kept rest (next live x) x (next-Covers live x w),
    live_loop-Covers rest (next live x),
  )

  live_loop-Wanted :
      (objects live : List (Object W))
      → All Wanted live
      → All Wanted (live_loop symbol side live objects)
  unfolding live_loop
  live_loop-Wanted [] live h = h
  live_loop-Wanted (x ∷ rest) live h = live_loop-Wanted rest (next live x) (next-Wanted live x h)

  -- The live orders that are listed for a symbol and a side are all live and of that symbol and side,
  -- and no such order in a slot is left out: it is listed itself, or one with its id is.
  pub live_objects_lem :
      (l : OrderLedger W)
      → All Wanted (live_objects symbol side l)
        × All (λ o. Wanted o → Covers (live_objects symbol side l) o) (slot_objects l)
  unfolding live_objects
  live_objects_lem l =
      let first = select (is_wanted symbol side) (resolve l.heap (values l.orders_by_order_id)) in
      (
        live_loop-Wanted (slot_objects l) first
            (All-selected (is_wanted symbol side) (resolve l.heap (values l.orders_by_order_id))),
        live_loop-Covers (slot_objects l) first,
      )
