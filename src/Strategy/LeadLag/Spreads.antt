-- ===== src/Strategy/LeadLag/Spreads.antt =====
-- src/strategy/lead_lag_graph.py: the spread overlay of a follower and the inventory overlay of a
-- symbol.
use stevehft.Prelude.{
  Bool, not, ◌||◌, String, Option, none, some, [], ◌∷◌, length, max, ltb, string_eq, ◌==◌,
  if◌then◌else◌,
}
use stevehft.Prelude.Int.{ℤ, abs, pos, beq_ℤ}
use stevehft.Prelude.Dict.{Dict, lookup, get_or}
use stevehft.Prelude.Float.{
  Float, nought, is_pos, not_pos, add, sub, mul, div, lt, neg, abs_f, max_f, min_f, clamp, decimal,
  of_ℕ, of_ℤ,
}
use stevehft.Strategy.LeadLag.{OnlineLeadLagGraphConfig, LeadLagPairState}
use stevehft.Strategy.LeadLag.Overlays.{
  LeadLagInventoryOverlay, LeadLagSpreadOverlay, Edges, Readings, mid_of, entropy_of, is_tradable,
  pair_state,
}

-- What the loop over a follower's peers has gathered.
pub record SpreadSum (W : Type 0) : Type 0 where
  pub weighted_synthetic_mid : W
  pub weight_sum : W
  pub best_symbol : String
  pub best_confidence : W
  pub best_residual_ticks : W

-- What the loop over the other inventories has gathered.
pub record HedgeSum (W : Type 0) : Type 0 where
  pub best_symbol : String
  pub best_confidence : W
  pub signed_hedge_lots : W
  pub abs_weight : W

module _ {W : Type 0} ⦃f : Float W⦄ where
  abbrev no_spread_overlay : LeadLagSpreadOverlay W
  no_spread_overlay = record {
    shift_ticks = nought;
    confidence = nought;
    peer_symbol = "";
    residual_ticks = nought;
  }

  abbrev no_inventory_overlay : LeadLagInventoryOverlay W
  no_inventory_overlay = record {
    hedge_multiplier = decimal 1 0;
    hedge_confidence = nought;
    hedge_symbol = "";
    hedge_ratio = nought;
  }

module _ {W : Type 0} ⦃f : Float W⦄ (config : OnlineLeadLagGraphConfig W) where
  abbrev skips_peer : String → Readings W → LeadLagPairState W → Bool
  skips_peer peer readings edge =
      ltb edge.samples_seen config.min_samples
      || not_pos edge.spread_confidence
      || not_pos edge.mid_ratio_ewma
      || not_pos (mid_of (lookup peer readings))
      || not (is_tradable peer readings)

  abbrev peer_confidence : String → String → Readings W → LeadLagPairState W → W
  peer_confidence follower peer readings edge =
      clamp
        (mul edge.spread_confidence
          (min_f (entropy_of (lookup follower readings)) (entropy_of (lookup peer readings))))
        nought (decimal 1 0)

  abbrev residual : W → W → W → W
  residual synthetic_mid follower_mid tick_size =
      div (sub synthetic_mid follower_mid) (max_f tick_size (decimal 1 9))

  abbrev add_peer : String → W → W → W → W → SpreadSum W → SpreadSum W
  add_peer peer confidence synthetic_mid follower_mid tick_size sum =
      let sum' = record sum {
        weighted_synthetic_mid = add sum.weighted_synthetic_mid (mul confidence synthetic_mid);
        weight_sum = add sum.weight_sum confidence;
      } in
      if lt sum.best_confidence confidence
      then record sum' {
        best_confidence = confidence;
        best_symbol = peer;
        best_residual_ticks = residual synthetic_mid follower_mid tick_size;
      }
      else sum'

  unfoldable pub spread_loop : Edges W → String → W → Readings W → W → SpreadSum W → SpreadSum W
  unfolding is_tradable
  spread_loop [] follower follower_mid readings tick_size sum = sum
  spread_loop ((peer, edge) ∷ edges) follower follower_mid readings tick_size sum =
      let confidence = peer_confidence follower peer readings edge in
      let synthetic_mid = mul edge.mid_ratio_ewma (mid_of (lookup peer readings)) in
      spread_loop edges follower follower_mid readings tick_size (
        if skips_peer peer readings edge || not_pos confidence
        then sum
        else add_peer peer confidence synthetic_mid follower_mid tick_size sum)

  abbrev spread_overlay_of : Edges W → W → W → SpreadSum W → LeadLagSpreadOverlay W
  spread_overlay_of edges follower_mid tick_size sum =
      let residual_ticks =
        residual (div sum.weighted_synthetic_mid sum.weight_sum) follower_mid tick_size in
      let confidence =
        clamp (div sum.weight_sum (of_ℕ (max (length edges) 1))) nought (decimal 1 0) in
      let bound = config.max_spread_residual_ticks in
      if not_pos sum.weight_sum then no_spread_overlay else record {
        shift_ticks = clamp (mul confidence residual_ticks) (neg bound) bound;
        confidence = confidence;
        peer_symbol = sum.best_symbol;
        residual_ticks = clamp sum.best_residual_ticks (neg bound) bound;
      }

  unfoldable pub build_spread_overlay : String → Readings W → W → Edges W → LeadLagSpreadOverlay W
  unfolding spread_loop is_tradable
  build_spread_overlay follower readings tick_size edges =
      let follower_mid = mid_of (lookup follower readings) in
      if not_pos follower_mid || not (is_tradable follower readings)
      then no_spread_overlay
      else spread_overlay_of edges follower_mid tick_size (
          spread_loop edges follower follower_mid readings tick_size (record {
            weighted_synthetic_mid = nought;
            weight_sum = nought;
            best_symbol = "";
            best_confidence = nought;
            best_residual_ticks = nought;
          }))

module _ {W : Type 0} ⦃f : Float W⦄ where
  -- An edge that has confidence adds it, and its score weighted by it.
  abbrev add_edge : Option (LeadLagPairState W) → W × W → W × W
  add_edge none (edge_weight, edge_score) = (edge_weight, edge_score)
  add_edge (some edge) (edge_weight, edge_score) =
      if is_pos edge.confidence
      then (add edge_weight edge.confidence, add edge_score (mul edge.confidence edge.shrunk_score))
      else (edge_weight, edge_score)

  abbrev add_hedge : String → ℤ → W × W → HedgeSum W → HedgeSum W
  add_hedge other other_lots (edge_weight, edge_score) sum =
      let average = div edge_score edge_weight in
      let sum' = record sum {
        signed_hedge_lots =
            add sum.signed_hedge_lots (mul (mul average edge_weight) (of_ℤ other_lots));
        abs_weight = add sum.abs_weight (mul edge_weight (of_ℕ (abs other_lots)));
      } in
      if not_pos edge_weight
      then sum
      else if lt sum.best_confidence edge_weight
      then record sum' { best_confidence = edge_weight; best_symbol = other }
      else sum'

  unfoldable pub hedge_loop :
      Dict String ℤ → String → Dict String (Edges W) → HedgeSum W → HedgeSum W
  unfolding pair_state
  hedge_loop [] symbol graph sum = sum
  hedge_loop ((other, lots) ∷ inventories) symbol graph sum = hedge_loop inventories symbol graph (
      if other == symbol || beq_ℤ lots (pos 0)
      then sum
      else add_hedge other lots
          (add_edge (pair_state other symbol graph)
            (add_edge (pair_state symbol other graph) (nought, nought)))
          sum)

  abbrev hedged : ℤ → HedgeSum W → LeadLagInventoryOverlay W
  hedged own_lots sum =
      let net_group_lots = add (of_ℤ own_lots) sum.signed_hedge_lots in
      let hedge_ratio =
        clamp
          (sub (decimal 1 0)
            (div (abs_f net_group_lots) (max_f (of_ℕ (abs own_lots)) (decimal 1 0))))
          nought (decimal 1 0) in
      let hedge_confidence = clamp sum.best_confidence nought (decimal 1 0) in
      if not_pos sum.abs_weight then no_inventory_overlay else record {
        hedge_multiplier =
            clamp (sub (decimal 1 0) (mul (mul (decimal 60 2) hedge_ratio) hedge_confidence))
              (decimal 40 2) (decimal 1 0);
        hedge_confidence = hedge_confidence;
        hedge_symbol = sum.best_symbol;
        hedge_ratio = hedge_ratio;
      }

  unfoldable pub inventory_overlay_for :
      String → Dict String ℤ → Dict String (Edges W) → LeadLagInventoryOverlay W
  unfolding hedge_loop
  inventory_overlay_for symbol inventories graph =
      let own_lots = get_or (lookup symbol inventories) (pos 0) in
      if beq_ℤ own_lots (pos 0)
      then no_inventory_overlay
      else hedged own_lots (
          hedge_loop inventories symbol graph (record {
            best_symbol = "";
            best_confidence = nought;
            signed_hedge_lots = nought;
            abs_weight = nought;
          }))
