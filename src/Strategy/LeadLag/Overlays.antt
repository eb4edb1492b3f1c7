-- ===== src/Strategy/LeadLag/Overlays.antt =====
-- src/strategy/lead_lag_graph.py: what the edges of the graph give a follower. A follower's edges are a
-- dictionary from its leaders.
use stevehft.Prelude.{
  Bool, false, not, ◌||◌, String, Option, none, some, List, [], ◌∷◌, take, length, max, ltb,
  string_eq, if◌then◌else◌,
}
use stevehft.Prelude.Dict.{Dict, lookup, get_or}
use stevehft.Prelude.Float.{
  Float, nought, not_pos, add, sub, mul, div, lt, neg, abs_f, max_f, min_f, clamp, decimal, of_ℕ,
}
use stevehft.Strategy.LeadLag.{OnlineLeadLagGraphConfig, LeadLagPairState, new_pair_state}

pub record LeadLagFollowerOverlay (W : Type 0) : Type 0 where
  pub shift_ticks : W
  pub confidence : W
  pub leader_symbol : String
  pub edge_score : W

pub record LeadLagInventoryOverlay (W : Type 0) : Type 0 where
  pub hedge_multiplier : W
  pub hedge_confidence : W
  pub hedge_symbol : String
  pub hedge_ratio : W

pub record LeadLagSpreadOverlay (W : Type 0) : Type 0 where
  pub shift_ticks : W
  pub confidence : W
  pub peer_symbol : String
  pub residual_ticks : W

abbrev pub Edges : Type 0 → Type 0
Edges W = Dict String (LeadLagPairState W)

-- An edge that may lead: its confidence, its leader and itself.
abbrev pub Candidate : Type 0 → Type 0
Candidate W = W × String × LeadLagPairState W

-- What one update reads of a symbol.
pub record Reading (W : Type 0) : Type 0 where
  pub mid : W
  pub signal : W
  pub signal_embedding : List W
  pub return_embedding : List W
  pub entropy_confidence : W
  pub tradable : Bool

abbrev pub Readings : Type 0 → Type 0
Readings W = Dict String (Reading W)

module _ {W : Type 0} ⦃f : Float W⦄ where
  -- The reading's field, and the default where the symbol has none.
  abbrev pub mid_of : Option (Reading W) → W
  mid_of none = nought
  mid_of (some r) = r.mid

  abbrev pub signal_of : Option (Reading W) → W
  signal_of none = nought
  signal_of (some r) = r.signal

  abbrev pub entropy_of : Option (Reading W) → W
  entropy_of none = decimal 1 0
  entropy_of (some r) = r.entropy_confidence

  abbrev tradable_of : Option (Reading W) → Bool
  tradable_of none = false
  tradable_of (some r) = r.tradable

  unfoldable pub is_tradable : String → Readings W → Bool
  is_tradable symbol readings = tradable_of (lookup symbol readings)

  abbrev edges_of : Option (Edges W) → Edges W
  edges_of none = []
  edges_of (some edges) = edges

  unfoldable pub pair_state : String → String → Dict String (Edges W) → Option (LeadLagPairState W)
  pair_state follower leader graph = lookup leader (edges_of (lookup follower graph))

  abbrev pub no_follower_overlay : LeadLagFollowerOverlay W
  no_follower_overlay = record {
    shift_ticks = nought;
    confidence = nought;
    leader_symbol = "";
    edge_score = nought;
  }

  -- `candidates.sort(key=confidence, reverse=True)`, which is stable.
  abbrev pub rank_in : Candidate W → List (Candidate W) → List (Candidate W)
  rank_in c [] = c ∷ []
  rank_in c (d ∷ ds) = let rest = rank_in c ds in if lt (c.0) (d.0) then d ∷ rest else c ∷ d ∷ ds

  abbrev pub ranked : List (Candidate W) → List (Candidate W)
  ranked [] = []
  ranked (c ∷ cs) = rank_in c (ranked cs)

module _ {W : Type 0} ⦃f : Float W⦄ (config : OnlineLeadLagGraphConfig W) where
  unfoldable pub edge_asymmetry : String → String → Dict String (Edges W) → LeadLagPairState W → W
  unfolding pair_state
  edge_asymmetry follower leader graph edge =
      let reverse_score =
        abs_f (get_or (pair_state leader follower graph) new_pair_state).shrunk_score in
      max_f (sub (abs_f edge.shrunk_score) reverse_score) nought

  unfoldable pub edge_confidence :
      String → String → Readings W → Dict String (Edges W) → LeadLagPairState W → W
  unfolding edge_asymmetry
  edge_confidence follower leader readings graph edge =
      let entropy_confidence =
        min_f (entropy_of (lookup leader readings)) (entropy_of (lookup follower readings)) in
      let sample_confidence =
        clamp (div (of_ℕ edge.samples_seen) (of_ℕ (max config.min_samples 1))) nought
          (decimal 1 0) in
      clamp
        (mul (mul sample_confidence (edge_asymmetry follower leader graph edge)) entropy_confidence)
        nought (decimal 1 0)

  -- The edge does not lead.
  unfoldable pub is_passed_over :
      String → String → Readings W → Dict String (Edges W) → LeadLagPairState W → Bool
  unfolding edge_asymmetry edge_confidence is_tradable
  is_passed_over follower leader readings graph edge =
      ltb edge.samples_seen config.min_samples
      || lt (abs_f edge.shrunk_score) config.min_abs_score
      || lt (edge_asymmetry follower leader graph edge) config.min_asymmetry
      || not_pos (edge_confidence follower leader readings graph edge)
      || not (is_tradable leader readings)
      || not (is_tradable follower readings)

  -- The candidates.
  unfoldable pub candidates :
      String → Readings W → Dict String (Edges W) → Edges W → List (Candidate W)
  unfolding is_passed_over edge_confidence
  candidates follower readings graph [] = []
  candidates follower readings graph ((leader, edge) ∷ edges) =
      let confidence = edge_confidence follower leader readings graph edge in
      let rest = candidates follower readings graph edges in
      if is_passed_over follower leader readings graph edge
      then rest
      else (confidence, leader, record edge { confidence = confidence }) ∷ rest

  -- The edges with the confidence that the loop writes to them.
  unfoldable pub marked_edges : String → Readings W → Dict String (Edges W) → Edges W → Edges W
  unfolding is_passed_over edge_confidence
  marked_edges follower readings graph [] = []
  marked_edges follower readings graph ((leader, edge) ∷ edges) =
      (
        leader,
        record edge {
          confidence =
              if is_passed_over follower leader readings graph edge
              then nought
              else edge_confidence follower leader readings graph edge;
        },
      )
      ∷ marked_edges follower readings graph edges

  abbrev shift_from : List (Candidate W) → Readings W → W → W
  shift_from [] readings shift_ticks = shift_ticks
  shift_from ((confidence, leader, edge) ∷ rest) readings shift_ticks = shift_from rest readings (
      add shift_ticks (mul (mul confidence edge.shrunk_score) (signal_of (lookup leader readings))))

  abbrev confidence_from : List (Candidate W) → W → W
  confidence_from [] total = total
  confidence_from ((confidence, leader, edge) ∷ rest) total =
      confidence_from rest (add total confidence)

  abbrev pub overlay_of : List (Candidate W) → Readings W → LeadLagFollowerOverlay W
  overlay_of [] readings = no_follower_overlay
  overlay_of ((confidence, leader, edge) ∷ rest) readings =
      let selected = (confidence, leader, edge) ∷ rest in
      record {
        shift_ticks =
            clamp (shift_from selected readings nought) (neg config.max_shift_ticks)
              config.max_shift_ticks;
        confidence =
            clamp (div (confidence_from selected nought) (of_ℕ (length selected))) nought
              (decimal 1 0);
        leader_symbol = leader;
        edge_score = edge.shrunk_score;
      }

  unfoldable pub build_overlay :
      String → Readings W → Dict String (Edges W) → Edges W → LeadLagFollowerOverlay W
  unfolding candidates
  build_overlay follower readings graph edges =
      overlay_of
        (take (max config.max_leaders_per_follower 1)
          (ranked (candidates follower readings graph edges)))
        readings
