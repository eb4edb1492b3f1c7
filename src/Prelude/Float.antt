-- ===== src/Prelude/Float.antt =====
-- Python's `float`. The language has no floats to compute with here, so the type and what the
-- program does with it are a parameter; a lemma that needs a law of the order takes it as a
-- hypothesis.
use Prim.Native.Nat.{ℕ, suc}
use Prim.Native.String.{String}
use mathlib.Core.Bool.{Bool}
use mathlib.Core.List.{List, [], ◌∷◌}
use stevehft.Prelude.Int.{ℤ, pos, negsuc}
use stevehft.Prelude.Tests.{if◌then◌else◌}

pub record Float (W : Type 0) : Type 0 where
  -- `x < y` and `x <= y`, both false on a NaN
  pub lt : W → W → Bool
  pub le : W → W → Bool
  pub add : W → W → W
  pub sub : W → W → W
  pub mul : W → W → W
  pub div : W → W → W
  pub abs : W → W
  pub neg : W → W
  -- `x ** 0.5` and `math.log(x)`
  pub sqrt : W → W
  pub log : W → W
  -- `math.exp(x)`
  pub exp : W → W
  -- `int(x)` and `int(round(x))`
  pub to_int : W → ℤ
  pub to_nearest : W → ℤ
  -- the literal `m * 10 ^ (-k)`
  pub decimal : ℕ → ℕ → W
  -- an `int` in a float's place
  pub of_ℕ : ℕ → W
  -- `f"{x:.12f}"`
  pub format_12f : W → String

module _ {W : Type 0} ⦃f : Float W⦄ where
  abbrev pub lt : W → W → Bool
  lt = f.lt

  abbrev pub le : W → W → Bool
  le = f.le

  abbrev pub add : W → W → W
  add = f.add

  abbrev pub sub : W → W → W
  sub = f.sub

  abbrev pub mul : W → W → W
  mul = f.mul

  abbrev pub div : W → W → W
  div = f.div

  abbrev pub neg : W → W
  neg = f.neg

  abbrev pub sqrt : W → W
  sqrt = f.sqrt

  abbrev pub log : W → W
  log = f.log

  abbrev pub exp : W → W
  exp = f.exp

  abbrev pub to_int : W → ℤ
  to_int = f.to_int

  abbrev pub to_nearest : W → ℤ
  to_nearest = f.to_nearest

  abbrev pub of_ℕ : ℕ → W
  of_ℕ = f.of_ℕ

  abbrev pub of_ℤ : ℤ → W
  of_ℤ (pos n) = f.of_ℕ n
  of_ℤ (negsuc n) = f.neg (f.of_ℕ (suc n))

  abbrev pub decimal : ℕ → ℕ → W
  decimal = f.decimal

  abbrev pub abs_f : W → W
  abs_f = f.abs

  -- `0.0`
  abbrev pub nought : W
  nought = f.decimal 0 0

  -- `x > 0.0` and `x <= 0.0`
  abbrev pub is_pos : W → Bool
  is_pos x = f.lt nought x

  abbrev pub not_pos : W → Bool
  not_pos x = f.le x nought

  -- `max(x, y)`: the second only if it is greater
  abbrev pub max_f : W → W → W
  max_f x y = if f.lt x y then y else x

  -- `min(x, y)`
  abbrev pub min_f : W → W → W
  min_f x y = if f.lt y x then y else x

  -- `max(lower, min(value, upper))`, the `_clamp` of several files
  abbrev pub clamp : W → W → W → W
  clamp value lower upper = max_f lower (min_f value upper)

  -- `sum(xs)` from a start value
  abbrev pub sum_from : W → List W → W
  sum_from acc [] = acc
  sum_from acc (x ∷ xs) = sum_from (f.add acc x) xs
