-- ===== src/Prelude/Sorting.antt =====
-- What holds of every element, or of every two of them, survives sorting, filtering and slicing.
use Prim.Native.Nat.{ℕ, zero, suc}
use mathlib.Core.Logic.{inl, inr}
use mathlib.Core.Bool.{Bool}
use mathlib.Core.List.{List, [], ◌∷◌}
use stevehft.Prelude.Tests.{leb, Bool-cases}
use stevehft.Prelude.Lists.{All, take, insert_by, sort_by, select}

module _ {ℓ κ} {A : Type ℓ} (P : A → Type κ) where
  pub All-insert_by :
      (key : A → ℕ) (x : A) (ys : List A) → P x → All P ys → All P (insert_by key x ys)
  All-insert_by key x [] p h = (p, h)
  All-insert_by key x (y ∷ ys) p h = elim (Bool-cases (leb (key x) (key y))) [
    | inl here ↦ rw here (p, h)
    | inr later ↦ rw later (h.0, All-insert_by key x ys p h.1)
  ]

  pub All-sort_by : (key : A → ℕ) (xs : List A) → All P xs → All P (sort_by key xs)
  All-sort_by key [] h = h
  All-sort_by key (x ∷ xs) h = All-insert_by key x (sort_by key xs) h.0 (All-sort_by key xs h.1)

  pub All-take : (n : ℕ) (xs : List A) → All P xs → All P (take n xs)
  All-take zero xs h = tt
  All-take (suc n) [] h = tt
  All-take (suc n) (x ∷ xs) h = (h.0, All-take n xs h.1)

  pub All-select : (test : A → Bool) (xs : List A) → All P xs → All P (select test xs)
  All-select test [] h = h
  All-select test (x ∷ xs) h = elim (Bool-cases (test x)) [
    | inl in_it ↦ rw in_it (h.0, All-select test xs h.1)
    | inr out ↦ rw out (All-select test xs h.1)
  ]

module _ {ℓ κ} {A : Type ℓ} (R : A → A → Type κ) where
  abbrev pub AllPairs : List A → Type κ
  AllPairs [] = Unit
  AllPairs (x ∷ xs) = All (R x) xs × AllPairs xs

  pub AllPairs-insert_by :
      ((a b : A) → R a b → R b a)
      → (key : A → ℕ) (x : A) (ys : List A) → All (R x) ys
      → AllPairs ys
      → AllPairs (insert_by key x ys)
  AllPairs-insert_by symm key x [] h d = (h, d)
  AllPairs-insert_by symm key x (y ∷ ys) h d = elim (Bool-cases (leb (key x) (key y))) [
    | inl here ↦ rw here (h, d)
    | inr later ↦
        rw later (
          All-insert_by (R y) key x ys (symm x y h.0) d.0,
          AllPairs-insert_by symm key x ys h.1 d.1,
        )
  ]

  pub AllPairs-sort_by :
      ((a b : A) → R a b → R b a)
      → (key : A → ℕ) (xs : List A) → AllPairs xs
      → AllPairs (sort_by key xs)
  AllPairs-sort_by symm key [] d = d
  AllPairs-sort_by symm key (x ∷ xs) d =
      AllPairs-insert_by symm key x (sort_by key xs) (All-sort_by (R x) key xs d.0)
        (AllPairs-sort_by symm key xs d.1)

  pub AllPairs-take : (n : ℕ) (xs : List A) → AllPairs xs → AllPairs (take n xs)
  AllPairs-take zero xs d = tt
  AllPairs-take (suc n) [] d = tt
  AllPairs-take (suc n) (x ∷ xs) d = (All-take (R x) n xs d.0, AllPairs-take n xs d.1)

  pub AllPairs-select : (test : A → Bool) (xs : List A) → AllPairs xs → AllPairs (select test xs)
  AllPairs-select test [] d = d
  AllPairs-select test (x ∷ xs) d = elim (Bool-cases (test x)) [
    | inl in_it ↦ rw in_it (All-select (R x) test xs d.0, AllPairs-select test xs d.1)
    | inr out ↦ rw out (AllPairs-select test xs d.1)
  ]
