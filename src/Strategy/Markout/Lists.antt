-- ===== src/Strategy/Markout/Lists.antt =====
-- Lists and dictionaries as src/strategy/markout_tracker.py uses them.
use stevehft.Prelude.{
  ℕ, ◌-◌, ◌≡◌, refl, ap, ◌⊎◌, inl, inr, Bool, true, some, List, [], ◌∷◌, select, drop, length, All,
  Bool-cases, Eq, arith, zero, suc,
}
use stevehft.Prelude.Dict.{Dict, lookup, insert}

pub insert_same {ℓ κ} :
    {K : Type ℓ} {V : Type κ} ⦃e : Eq K⦄ (k : K) (v : V) (d : Dict K V)
    → lookup k d ≡ some v
    → insert k v d ≡ d
unfolding lookup insert
insert_same k v [] h = absurd cc
insert_same ⦃e⦄ k v ((j, w) ∷ d) h = ground (arith, e.equals_iff j k, insert_same k v d)

pub lookup-select {ℓ κ} :
    {K : Type ℓ} {V : Type κ} ⦃e : Eq K⦄ (p : K → Bool) (k : K) (d : Dict K V)
    → p k ≡ true
    → lookup k (select (λ (entry : K × V). p (entry.0)) d) ≡ lookup k d
unfolding lookup
lookup-select p k [] h = refl
lookup-select ⦃e⦄ p k ((j, w) ∷ d) h = ground (arith, e.equals_iff j k, lookup-select p k d h)

pub select_twice {ℓ} :
    {A : Type ℓ} (p : A → Bool) (xs : List A) → select p (select p xs) ≡ select p xs
select_twice p [] = refl
select_twice p (x ∷ xs) = elim (Bool-cases (p x)) [
  | inl kept ↦ rw (kept, kept) (ap (λ ys. x ∷ ys) (select_twice p xs))
  | inr dropped ↦ rw dropped (select_twice p xs)
]

pub All-imp {ℓ κ} :
    {A : Type ℓ} {P Q : A → Type κ} (xs : List A) → ((x : A) → P x → Q x) → All P xs → All Q xs
All-imp [] h all = tt
All-imp (x ∷ xs) h (first, rest) = (h x first, All-imp xs h rest)

pub length-drop {ℓ} : {A : Type ℓ} (n : ℕ) (xs : List A) → length (drop n xs) ≡ length xs - n
length-drop zero xs = omega arith
length-drop (suc n) [] = omega arith
length-drop (suc n) (x ∷ xs) = omega (arith, length-drop n xs)

pub drop_none {ℓ} : {A : Type ℓ} (n : ℕ) (xs : List A) → (n ≡ 0) ⊎ (length xs ≡ 0) → drop n xs ≡ xs
drop_none zero xs h = refl
drop_none (suc n) [] h = refl
drop_none (suc n) (x ∷ xs) h = absurd (ground (arith, h))

pub drop-length {ℓ} : {A : Type ℓ} (xs : List A) → drop (length xs) xs ≡ []
drop-length [] = refl
drop-length (x ∷ xs) = drop-length xs

pub All-zip {ℓ κ} :
    {A : Type ℓ} {P Q R : A → Type κ} (xs : List A)
    → ((x : A) → P x → Q x → R x)
    → All P xs
    → All Q xs
    → All R xs
All-zip [] h ps qs = tt
All-zip (x ∷ xs) h (p, ps) (q, qs) = (h x p q, All-zip xs h ps qs)
