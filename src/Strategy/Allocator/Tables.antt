-- ===== src/Strategy/Allocator/Tables.antt =====
-- src/strategy/strategy_allocator.py, the weights of `update`: no comprehension over the sleeves fails.
use stevehft.Prelude.{
  Holds, Holds-bind, HasValue, ◌>>=◌, String, Option, some, List, [], ◌∷◌, if_lem, All, ◌==◌,
  nat_eq, string_eq,
}
use stevehft.Prelude.Dict.{Dict, lookup, ==_self}
use stevehft.Prelude.Float.{Float, div, is_pos, not_pos}
use stevehft.Strategy.Allocator.{
  StrategySleeveWeights, strategy_sleeves, AllocatorConfig, weights_of, each_of, even, sum_values,
  raw_weight, raw_weights, normalize_raw, normalize_mixed, with_floor, mix,
}

module _ {W : Type 0} where
  -- There is a value under every key of the list.
  abbrev pub HasEach : List String → Dict String W → Type 0
  HasEach sleeves d = All (λ (sleeve : String). HasValue (lookup sleeve d)) sleeves

  HasEach-cons :
      (sleeves : List String) (sleeve : String) (v : W) (d : Dict String W)
      → HasEach sleeves d
      → HasEach sleeves ((sleeve, v) ∷ d)
  unfolding lookup
  HasEach-cons [] sleeve v d h = tt
  HasEach-cons (s ∷ sleeves) sleeve v d (p, h) = (
    if_lem HasValue (sleeve == s) (some v) (lookup s d) (λ e. tt) (λ e. p),
    HasEach-cons sleeves sleeve v d h,
  )

  pub HasEach-here :
      (sleeves : List String) (sleeve : String) (v : W) (d : Dict String W)
      → HasEach sleeves d
      → HasEach (sleeve ∷ sleeves) ((sleeve, v) ∷ d)
  unfolding lookup
  HasEach-here sleeves sleeve v d h = (rw (==_self sleeve) tt, HasEach-cons sleeves sleeve v d h)

  each_of_total :
      (g : String → W → W) (old : Dict String W) (sleeves : List String)
      → HasEach sleeves old
      → Holds (HasEach sleeves) (each_of g old sleeves)
  unfolding each_of
  each_of_total g old [] h = tt
  each_of_total g old (sleeve ∷ sleeves) (p, h) =
      let each = HasEach (sleeve ∷ sleeves) in
      Holds-bind (λ v. Unit {0}) each (lookup sleeve old) _ p
        (λ value u.
          Holds-bind (HasEach sleeves) each (each_of g old sleeves) _
            (each_of_total g old sleeves h)
            (λ rest h'. HasEach-here sleeves sleeve (g sleeve value) rest h'))

  read :
      (sleeve : String) (mixed : Dict String W) (g : W → Option (StrategySleeveWeights W))
      → HasValue (lookup sleeve mixed)
      → ((v : W) → HasValue (g v))
      → HasValue (lookup sleeve mixed >>= g)
  read sleeve mixed g p next =
      Holds-bind (λ v. Unit {0}) (λ w. Unit {0}) (lookup sleeve mixed) g p (λ v u. next v)

  weights_of_total :
      (mixed : Dict String W) → HasEach strategy_sleeves mixed → HasValue (weights_of mixed)
  unfolding weights_of
  weights_of_total mixed (a, (b, (c, (d, (e, (g, (h, _))))))) = read "BASE_MM" mixed _ a (λ base.
      read "LEAD_LAG" mixed _ b (λ lead. read "PAIR_SPREAD" mixed _ c (λ pair.
        read "INV_HEDGE" mixed _ d (λ hedge.
          read "TAKER_EXIT" mixed _ e
            (λ taker. read "NOISE_FADE" mixed _ g (λ noise. read "CASH" mixed _ h (λ cash. tt)))))))

module _ {W : Type 0} ⦃f : Float W⦄ where
  normalize_raw_total :
      (raw : Dict String W)
      → HasEach strategy_sleeves raw
      → Holds (HasEach strategy_sleeves) (normalize_raw raw)
  unfolding lookup
  normalize_raw_total raw h =
      if_lem (Holds (HasEach strategy_sleeves)) (not_pos (sum_values raw)) (some even)
        (each_of (λ sleeve weight. div weight (sum_values raw)) raw strategy_sleeves)
        (λ e. (tt, (tt, (tt, (tt, (tt, (tt, (tt, tt))))))))
        (λ e. each_of_total _ raw strategy_sleeves h)

  normalize_mixed_total :
      (mixed : Dict String W)
      → HasEach strategy_sleeves mixed
      → Holds (HasEach strategy_sleeves) (normalize_mixed mixed)
  normalize_mixed_total mixed h =
      if_lem (Holds (HasEach strategy_sleeves)) (is_pos (sum_values mixed))
        (each_of (λ sleeve weight. div weight (sum_values mixed)) mixed strategy_sleeves)
        (some mixed) (λ e. each_of_total _ mixed strategy_sleeves h) (λ e. h)

  pub mix_total :
      (config : AllocatorConfig W) (logits : Dict String W)
      → HasEach strategy_sleeves logits
      → HasValue (mix config logits)
  unfolding mix
  mix_total config logits h =
      let each = HasEach strategy_sleeves in
      let done = λ (w : StrategySleeveWeights W). Unit {0} in
      Holds-bind each done (raw_weights logits) _
        (each_of_total (raw_weight logits) logits strategy_sleeves h)
        (λ raw r.
          Holds-bind each done (normalize_raw raw) _ (normalize_raw_total raw r) (λ normalized n.
            Holds-bind each done (each_of (with_floor config) normalized strategy_sleeves) _
              (each_of_total (with_floor config) normalized strategy_sleeves n)
              (λ mixed m.
                Holds-bind each done (normalize_mixed mixed) _ (normalize_mixed_total mixed m)
                  (λ shares s. weights_of_total shares s))))
