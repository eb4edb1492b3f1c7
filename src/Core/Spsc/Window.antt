-- ===== src/Core/Spsc/Window.antt =====
-- A ring of slots holds a list from an index on.
use native.Mathlib.Nat.{mod-add-mod, mod-eq_of_lt, mod-eq-sub-mod}
use native.Mathlib.Decide.{dec_lt}
use stevehft.Prelude.{
  ℕ, zero, suc, ◌+◌, ◌-◌, ◌%◌, ◌≤◌, ◌<◌, ◌≡◌, ◌≢◌, ap, ◌∙◌, Option, some, List, [], ◌∷◌, ◌++◌,
  arith, set, get_elem?, length, get_elem?-set_ne,
}

module _ {T : Type 0} (cap : ℕ) where
  -- The slots from `h` on, going round at `cap`, hold the items of `q` in order.
  abbrev pub Holds : List (Option T) → ℕ → List T → Type 0
  Holds buf h [] = Unit {0}
  Holds buf h (x ∷ q) = (get_elem? buf h ≡ some (some x)) × Holds buf ((h + 1) % cap) q

-- Less than a whole round away from an index there is another index.
pub round-ne : (cap h k : ℕ) → h < cap → 0 < k → k < cap → (h + k) % cap ≢ h
round-ne cap h k hh hk kc = elim (dec_lt (h + k) cap) [
  | yes p ↦ omega (arith, mod-eq_of_lt p)
  | no p ↦ omega (
    arith,
    mod-eq-sub-mod {n = h + k} {m = cap} (omega arith),
    mod-eq_of_lt {n = h + k - cap} {m = cap} (omega arith),
  )
]

pub step-round : (cap h k : ℕ) → ((h + 1) % cap + k) % cap ≡ (h + suc k) % cap
step-round cap h k = mod-add-mod (h + 1) cap k ∙ ap (λ n. n % cap) (omega arith)

module _ {T : Type 0} (cap : ℕ) (buf : List (Option T)) where
  -- A write outside of the window leaves it alone.
  pub Holds-set :
      (h k i : ℕ) (v : Option T) (q : List T)
      → h < cap
      → i ≡ (h + k) % cap
      → length q ≤ k
      → k < cap
      → Holds cap buf h q
      → Holds cap (set buf i v) h q
  Holds-set h k i v [] hh ei hk kc w = tt
  Holds-set h zero i v (x ∷ q) hh ei hk kc w = absurd (omega arith)
  Holds-set h (suc k) i v (x ∷ q) hh ei hk kc w = (
    get_elem?-set_ne buf i h v (λ e. round-ne cap h (suc k) hh (omega arith) kc (cc)) ∙ w.0,
    Holds-set ((h + 1) % cap) k i v q (omega arith) (omega (arith, step-round cap h k))
        (omega arith) (omega arith) w.1,
  )

  -- A slot just behind the window extends it.
  pub Holds-snoc :
      (h i : ℕ) (x : T) (q : List T)
      → h < cap
      → i ≡ (h + length q) % cap
      → get_elem? buf i ≡ some (some x)
      → Holds cap buf h q
      → Holds cap buf h (q ++ (x ∷ []))
  Holds-snoc h i x [] hh ei slot w = (cc (ei ∙ mod-eq_here), tt)
    where
      mod-eq_here : (h + 0) % cap ≡ h
      mod-eq_here = mod-eq_of_lt {n = h + 0} {m = cap} (omega arith) ∙ omega arith
  Holds-snoc h i x (y ∷ q) hh ei slot w = (
    w.0,
    Holds-snoc ((h + 1) % cap) i x q (omega arith) (omega (arith, step-round cap h (length q))) slot
        w.1,
  )
