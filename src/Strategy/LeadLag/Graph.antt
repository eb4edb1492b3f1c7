-- ===== src/Strategy/LeadLag/Graph.antt =====
-- src/strategy/lead_lag_graph.py: the graph, and its update from the observations of one moment.
use stevehft.Prelude.{
  ◌&&◌, String, Option, none, some, List, [], ◌∷◌, map, max, replicate, string_eq, ◌==◌,
  if◌then◌else◌,
}
use stevehft.Prelude.Dict.{Dict, lookup, insert, get_or}
use stevehft.Prelude.Float.{
  Float, nought, is_pos, add, sub, mul, div, le, neg, abs_f, max_f, clamp, decimal,
}
use stevehft.Strategy.LeadLag.{
  OnlineLeadLagGraphConfig, LeadLagPairState, new_pair_state, prepend_embedding_value, pair_update,
}
use stevehft.Strategy.LeadLag.Overlays.{
  LeadLagFollowerOverlay, LeadLagSpreadOverlay, Edges, Reading, Readings, mid_of, marked_edges,
  build_overlay,
}
use stevehft.Strategy.LeadLag.Spreads.{build_spread_overlay}

pub record LeadLagObservation (W : Type 0) : Type 0 where
  pub symbol : String
  pub mid_price : W
  pub local_depth_imbalance : W
  pub depth_entropy : W
  pub local_multi_level_voi : W
  pub global_l1_voi : W
  pub book_age_ms : W
  pub spread_ticks : W

-- `signal_embedding_by_symbol` is a copy of `prev_signal_by_symbol`, and the current signals and
-- confidences are those of the last readings.
pub record OnlineLeadLagGraph (W : Type 0) : Type 0 where
  pub prev_mid_by_symbol : Dict String W
  pub prev_signal_by_symbol : Dict String (List W)
  pub return_embedding_by_symbol : Dict String (List W)
  pub readings : Readings W
  pub pair_state_by_follower : Dict String (Edges W)
  pub overlay_by_symbol : Dict String (LeadLagFollowerOverlay W)
  pub spread_overlay_by_symbol : Dict String (LeadLagSpreadOverlay W)

-- `{key: g(key, value) for key, value in d.items()}`
abbrev map_values : {A B : Type 0} → (String → A → B) → Dict String A → Dict String B
map_values g [] = []
map_values g ((k, v) ∷ d) = (k, g k v) ∷ map_values g d

module _ {W : Type 0} where
  abbrev embedding_of : Option (List W) → List W
  embedding_of none = []
  embedding_of (some xs) = xs

module _ {W : Type 0} ⦃f : Float W⦄ (config : OnlineLeadLagGraphConfig W) where
  abbrev return_ticks_of : W → W → W → W
  return_ticks_of prev_mid mid_price tick_size =
      if is_pos prev_mid && is_pos mid_price
      then div (sub mid_price prev_mid) (max_f tick_size (decimal 1 9))
      else nought

  abbrev signal_of : W → LeadLagObservation W → W
  signal_of return_ticks obs =
      clamp
        (add
          (add (add return_ticks (mul (decimal 35 2) obs.local_multi_level_voi))
            (mul (decimal 20 2) obs.global_l1_voi))
          (mul (decimal 20 2) obs.local_depth_imbalance))
        (neg config.max_abs_signal) config.max_abs_signal

  abbrev confidence_of : W → LeadLagObservation W → W
  confidence_of signal obs = max_f config.entropy_confidence_floor (
      clamp
        (sub (sub (decimal 1 0) (mul (decimal 20 2) obs.depth_entropy))
          (mul (decimal 35 2) (sub (decimal 1 0) (div (abs_f signal) config.max_abs_signal))))
        nought (decimal 1 0))

  unfoldable pub read_observation : W → OnlineLeadLagGraph W → LeadLagObservation W → Reading W
  unfolding prepend_embedding_value
  read_observation tick_size g obs =
      let prev_mid = get_or (lookup obs.symbol g.prev_mid_by_symbol) nought in
      let return_ticks = return_ticks_of prev_mid obs.mid_price tick_size in
      let signal = signal_of return_ticks obs in
      record {
        mid = obs.mid_price;
        signal = signal;
        signal_embedding =
            prepend_embedding_value signal
              (embedding_of (lookup obs.symbol g.prev_signal_by_symbol)) config.delay_embedding_dim;
        return_embedding =
            prepend_embedding_value return_ticks
              (embedding_of (lookup obs.symbol g.return_embedding_by_symbol))
              config.delay_embedding_dim;
        entropy_confidence = confidence_of signal obs;
        tradable =
            is_pos obs.mid_price
            && le obs.book_age_ms config.max_book_age_ms
            && le obs.spread_ticks config.max_spread_ticks;
      }

  unfoldable pub read_all :
      List (LeadLagObservation W) → W → OnlineLeadLagGraph W → Readings W → Readings W
  unfolding read_observation
  read_all [] tick_size g readings = readings
  read_all (obs ∷ observations) tick_size g readings =
      read_all observations tick_size g
        (insert obs.symbol (read_observation tick_size g obs) readings)

  -- The zeros that stand for an embedding that is not there.
  abbrev no_embedding : List W
  no_embedding = replicate (max config.delay_embedding_dim 1) nought

  abbrev return_embedding_of : Option (Reading W) → List W
  return_embedding_of none = no_embedding
  return_embedding_of (some r) = r.return_embedding

  abbrev update_edge :
      String → String → Readings W → OnlineLeadLagGraph W → LeadLagPairState W → LeadLagPairState W
  update_edge follower leader readings g edge =
      pair_update (get_or (lookup leader g.prev_signal_by_symbol) no_embedding)
        (mid_of (lookup leader readings)) (return_embedding_of (lookup follower readings))
        (mid_of (lookup follower readings)) config.alpha config.score_shrinkage_samples edge

  unfoldable pub update_edges :
      List String → String → Readings W → OnlineLeadLagGraph W → Edges W → Edges W
  unfolding pair_update
  update_edges [] follower readings g edges = edges
  update_edges (leader ∷ leaders) follower readings g edges =
      update_edges leaders follower readings g (
        if leader == follower
        then edges
        else insert leader
            (update_edge follower leader readings g (get_or (lookup leader edges) new_pair_state))
            edges)

  abbrev edges_or_none : Option (Edges W) → Edges W
  edges_or_none none = []
  edges_or_none (some edges) = edges

  unfoldable pub update_followers :
      List String
      → List String
      → Readings W
      → OnlineLeadLagGraph W
      → Dict String (Edges W)
      → Dict String (Edges W)
  unfolding update_edges
  update_followers [] symbols readings g graph = graph
  update_followers (follower ∷ followers) symbols readings g graph =
      update_followers followers symbols readings g (
        insert follower
          (update_edges symbols follower readings g (edges_or_none (lookup follower graph))) graph)

  abbrev mids_from : List (LeadLagObservation W) → Dict String W → Dict String W
  mids_from [] mids = mids
  mids_from (obs ∷ observations) mids =
      mids_from observations
        (if is_pos obs.mid_price then insert obs.symbol obs.mid_price mids else mids)

  abbrev update_from : List (LeadLagObservation W) → W → OnlineLeadLagGraph W → OnlineLeadLagGraph W
  update_from observations tick_size g =
      let readings = read_all observations tick_size g [] in
      let symbols = map (λ (obs : LeadLagObservation W). obs.symbol) observations in
      let graph = update_followers symbols symbols readings g g.pair_state_by_follower in
      record {
        prev_mid_by_symbol = mids_from observations [];
        prev_signal_by_symbol = map_values (λ symbol r. r.signal_embedding) readings;
        return_embedding_by_symbol = map_values (λ symbol r. r.return_embedding) readings;
        readings = readings;
        pair_state_by_follower =
            map_values (λ follower edges. marked_edges config follower readings graph edges) graph;
        overlay_by_symbol =
            map_values (λ follower edges. build_overlay config follower readings graph edges) graph;
        spread_overlay_by_symbol =
            map_values
              (λ follower edges.
                build_spread_overlay config follower readings tick_size
                  (marked_edges config follower readings graph edges))
              graph;
      }

  unfoldable pub graph_update :
      List (LeadLagObservation W) → W → OnlineLeadLagGraph W → OnlineLeadLagGraph W
  unfolding read_all update_followers marked_edges build_overlay build_spread_overlay
  graph_update [] tick_size g = g
  graph_update (obs ∷ observations) tick_size g = update_from (obs ∷ observations) tick_size g
