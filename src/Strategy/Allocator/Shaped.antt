-- ===== src/Strategy/Allocator/Shaped.antt =====
-- src/strategy/strategy_allocator.py, `update`: it never fails on the coefficients it keeps.
use stevehft.Prelude.{
  Holds, Holds-bind, ℕ, suc, ◌≡◌, refl, ap, ◌∙◌, sym, subst, String, Option, List, [], ◌∷◌, length,
  length-replicate, All, ◌==◌, nat_eq, string_eq, arith, Bool-cases, ◌⊎◌, inl, inr,
}
use stevehft.Prelude.Dict.{Dict, lookup, insert, lookup-insert}
use stevehft.Prelude.Float.{Float, nought}
use stevehft.Strategy.Allocator.Tables.{HasEach, HasEach-here, mix_total}
use stevehft.Strategy.Allocator.{
  StrategySleeveWeights, Allocator, strategy_sleeves, context_or_bias, fresh_theta, theta_for,
  adapt, learn, update, step_for, logit_cap, logit_of, mix,
}

module _ {W : Type 0} where
  -- A vector of `n` coefficients
  abbrev pub HasLength : ℕ → Option (List W) → Type 0
  HasLength n o = Holds (λ (v : List W). length v ≡ n) o

  -- Every vector has `n` coefficients, and every sleeve of the list has a vector.
  abbrev pub IsShapedFor : ℕ → List String → Dict String (List W) → Type 0
  IsShapedFor n sleeves theta =
      All (λ (entry : String × List W). length (entry.1) ≡ n) theta
      × All (λ (sleeve : String). HasLength n (lookup sleeve theta)) sleeves

  -- There are no coefficients yet, or as many for each sleeve.
  abbrev pub IsShaped : Allocator W → Type 0
  IsShaped a = (a.theta ≡ []) ⊎ ((n : ℕ) × IsShapedFor n strategy_sleeves a.theta)

  All-insert :
      (n : ℕ) (sleeve : String) (v : List W) (theta : Dict String (List W))
      → length v ≡ n
      → All (λ (entry : String × List W). length (entry.1) ≡ n) theta
      → All (λ (entry : String × List W). length (entry.1) ≡ n) (insert sleeve v theta)
  unfolding insert
  All-insert n sleeve v [] e h = (e, tt)
  All-insert n sleeve v ((k, w) ∷ theta) e h = elim (Bool-cases (k == sleeve)) [
    | inl same ↦ rw same (e, h.1)
    | inr other ↦ rw other (h.0, All-insert n sleeve v theta e h.1)
  ]

  HasLength-insert :
      (n : ℕ) (sleeve other : String) (v : List W) (theta : Dict String (List W))
      → length v ≡ n
      → HasLength n (lookup other theta)
      → HasLength n (lookup other (insert sleeve v theta))
  HasLength-insert n sleeve other v theta e h =
      rw (lookup-insert sleeve other v theta)
        (elim (Bool-cases (sleeve == other)) [ inl same ↦ rw same e | inr differs ↦ rw differs h ])

  sleeves-insert :
      (n : ℕ) (sleeve : String) (v : List W) (theta : Dict String (List W)) (sleeves : List String)
      → length v ≡ n
      → All (λ (s : String). HasLength n (lookup s theta)) sleeves
      → All (λ (s : String). HasLength n (lookup s (insert sleeve v theta))) sleeves
  sleeves-insert n sleeve v theta [] e h = tt
  sleeves-insert n sleeve v theta (s ∷ sleeves) e h =
      (HasLength-insert n sleeve s v theta e h.0, sleeves-insert n sleeve v theta sleeves e h.1)

module _ (W : Type 0) ⦃f : Float W⦄ where
  fresh_theta-IsShapedFor : (n : ℕ) → IsShapedFor {W = W} n strategy_sleeves (fresh_theta n)
  unfolding lookup
  fresh_theta-IsShapedFor n =
      let e = length-replicate n (nought {W = W}) in
      ((e, (e, (e, (e, (e, (e, (e, tt))))))), (e, (e, (e, (e, (e, (e, (e, tt))))))))

module _ {W : Type 0} ⦃f : Float W⦄ where
  adapt_total :
      (step limit : W) (theta ctx : List W)
      → length theta ≡ length ctx
      → HasLength (length ctx) (adapt step limit theta ctx)
  unfolding adapt
  adapt_total step limit [] [] e = refl
  adapt_total step limit (t ∷ theta) [] e = absurd (omega (arith, e))
  adapt_total step limit [] (x ∷ ctx) e = absurd (omega (arith, e))
  adapt_total step limit (t ∷ theta) (x ∷ ctx) e =
      Holds-bind (λ (v : List W). length v ≡ length ctx)
        (λ (v : List W). length v ≡ suc (length ctx)) (adapt step limit theta ctx) _
        (adapt_total step limit theta ctx (omega (arith, e))) (λ v e'. ap suc e')

  -- Every sleeve still has its vector, and those of the list have a logit.
  abbrev IsLearnt : ℕ → List String → Dict String (List W) × Dict String W → Type 0
  IsLearnt n sleeves (theta, logits) = IsShapedFor n strategy_sleeves theta × HasEach sleeves logits

  learn_total :
      (step_of : String → W) (limit : W) (ctx : List W) (todo : List String)
      (theta : Dict String (List W))
      → IsShapedFor (length ctx) strategy_sleeves theta
      → All (λ (sleeve : String). HasLength (length ctx) (lookup sleeve theta)) todo
      → Holds (IsLearnt (length ctx) todo) (learn step_of limit ctx todo theta)
  unfolding learn
  learn_total step_of limit ctx [] theta h t = (h, tt)
  learn_total step_of limit ctx (sleeve ∷ todo) theta h t =
      let n = length ctx in
      let fits = λ (v : List W). length v ≡ n in
      let learnt = IsLearnt n (sleeve ∷ todo) in
      Holds-bind fits learnt (lookup sleeve theta) _ t.0 (λ old e.
        Holds-bind fits learnt (adapt (step_of sleeve) limit old ctx) _
          (adapt_total (step_of sleeve) limit old ctx e)
          (λ new e'.
            let theta' = insert sleeve new theta in
            Holds-bind (IsLearnt n todo) learnt (learn step_of limit ctx todo theta') _
              (learn_total step_of limit ctx todo theta'
                (
                  All-insert n sleeve new theta e' h.0,
                  sleeves-insert n sleeve new theta strategy_sleeves e' h.1,
                )
                (sleeves-insert n sleeve new theta todo e' t.1))
              (λ r v. (v.0, HasEach-here todo sleeve (logit_of limit new ctx) r.1 v.1))))

  theta_for-IsShapedFor :
      (ctx : List W) (theta : Dict String (List W))
      → (theta ≡ []) ⊎ ((n : ℕ) × IsShapedFor n strategy_sleeves theta)
      → IsShapedFor (length ctx) strategy_sleeves (theta_for ctx theta)
  unfolding theta_for
  theta_for-IsShapedFor ctx [] h = fresh_theta-IsShapedFor W (length ctx)
  theta_for-IsShapedFor ctx (entry ∷ theta) (inl e) = absurd (ground (arith, e))
  theta_for-IsShapedFor ctx (entry ∷ theta) (inr (n, h)) =
      elim (Bool-cases (length entry.1 == length ctx)) [
        | inl same ↦ rw same (
            subst (λ k. IsShapedFor k strategy_sleeves (entry ∷ theta))
              (sym h.0.0 ∙ (nat_eq.equals_iff (length entry.1) (length ctx)).0 same) h)
        | inr differs ↦ rw differs (fresh_theta-IsShapedFor W (length ctx))
      ]

  -- The weights that are returned are kept, and so are as many coefficients for each sleeve as the
  -- context has features.
  abbrev pub IsUpdated : List W → StrategySleeveWeights W × Allocator W → Type 0
  IsUpdated ctx (weights, a) =
      (a.weights ≡ weights) × IsShapedFor (length ctx) strategy_sleeves a.theta

  -- `update` of an allocator that has no coefficients yet, or as many for every sleeve, raises neither
  -- a KeyError nor an IndexError, whatever the scores, the rewards and the context: it keeps the
  -- weights that it returns and a coefficient of every sleeve for each feature of the context, so the
  -- next `update` does not fail either.
  pub update-IsUpdated :
      (scores : Dict String W) (reward_multiplier : W) (rewards : Option (Dict String W))
      (context : Option (List W)) (a : Allocator W)
      → IsShaped a
      → Holds
          (IsUpdated (context_or_bias context))
          (update scores reward_multiplier rewards context a)
  unfolding update
  update-IsUpdated scores reward_multiplier rewards context a h =
      let ctx = context_or_bias context in
      let shaped = theta_for-IsShapedFor ctx a.theta h in
      Holds-bind (IsLearnt (length ctx) strategy_sleeves) (IsUpdated ctx)
        (learn (step_for a scores reward_multiplier rewards) (logit_cap a) ctx strategy_sleeves
          (theta_for ctx a.theta))
        _
        (learn_total (step_for a scores reward_multiplier rewards) (logit_cap a) ctx
          strategy_sleeves (theta_for ctx a.theta) shaped shaped.1)
        (λ r v.
          Holds-bind (λ w. Unit {0}) (IsUpdated ctx) (mix a.config r.1) _
            (mix_total a.config r.1 v.1) (λ weights u. (refl, v.0)))
