-- ===== src/Core/Session/Cover.antt =====
-- The lists of symbols of src/core/session.py: what is listed and what is missing cover what was asked
-- for.
use stevehft.Prelude.{
  ◌≡◌, refl, ap, ◌∙◌, subst, String, true, not, ◌||◌, List, [], ◌∷◌, ◌++◌, select, if_lem, arith,
  ◌==◌, string_eq,
}
use stevehft.Prelude.Dict.{==_self}
use stevehft.Core.Session.Repair.{is_in, all_in, distinct_after}

is_in-append : (xs ys : List String) (y : String) → is_in (xs ++ ys) y ≡ (is_in xs y || is_in ys y)
is_in-append [] ys y = refl
is_in-append (x ∷ xs) ys y = ground (arith, is_in-append xs ys y)

-- Dropping what stands twice drops nothing.
is_in-distinct_after :
    (seen xs : List String) (y : String)
    → is_in (distinct_after seen xs) y ≡ (is_in seen y || is_in xs y)
unfolding distinct_after
is_in-distinct_after seen [] y = ground arith
is_in-distinct_after seen (x ∷ xs) y =
    if_lem (λ q. is_in (distinct_after q xs) y ≡ (is_in seen y || (x == y || is_in xs y)))
      (is_in seen x) seen (seen ++ (x ∷ []))
      (λ there.
        is_in-distinct_after seen xs y
        ∙ ground
            (arith, string_eq.equals_iff x y, subst (λ z. is_in seen z ≡ true) {x = x} {y = y}))
      (λ new.
        is_in-distinct_after (seen ++ (x ∷ [])) xs y ∙ ground (arith, is_in-append seen (x ∷ []) y))

-- What was asked for is there, or is missing.
is_in-missing :
    (current requested : List String) (y : String)
    → is_in requested y ≡ true
    → (is_in current y || is_in (select (λ (s : String). not (is_in current s)) requested) y) ≡ true
is_in-missing current [] y h = absurd cc
is_in-missing current (x ∷ xs) y h =
    ground (arith, is_in-missing current xs y, string_eq.equals_iff x y)

all_in-each :
    (symbols requested : List String)
    → ((y : String) → is_in requested y ≡ true → is_in symbols y ≡ true)
    → all_in symbols requested ≡ true
all_in-each symbols [] h = refl
all_in-each symbols (x ∷ xs) h =
    let here = h x (ap (λ b. b || is_in xs x) (==_self x)) in
    let rest = all_in-each symbols xs (λ y there. h y (ground (arith, there))) in
    ground (arith, here, rest)

-- The symbols that are there and those that are missing cover what was asked for.
pub all_in-repaired :
    (current requested : List String)
    → all_in
        (distinct_after [] (current ++ select (λ (s : String). not (is_in current s)) requested))
        requested
      ≡ true
all_in-repaired current requested =
    let missing = select (λ (s : String). not (is_in current s)) requested in
    all_in-each (distinct_after [] (current ++ missing)) requested (λ y asked.
      is_in-distinct_after [] (current ++ missing) y
      ∙ is_in-append current missing y
      ∙ is_in-missing current requested y asked)
