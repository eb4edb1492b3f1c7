-- ===== src/Strategy/LeadLag.antt =====
-- src/strategy/lead_lag_graph.py: how far one symbol's signal precedes the returns of another. Lists
-- that are read by an index have one length; an index that is out of range reads nought.
pub mod Overlays
pub mod Led
pub mod Graph
pub mod Spreads
use stevehft.Prelude.{
  ℕ, suc, ◌+◌, ◌-◌, ◌*◌, Bool, true, false, ◌&&◌, String, List, [], ◌∷◌, ◌++◌, take, replicate,
  length, get_elem?, min, max, leb, nat_beq, if◌then◌else◌,
}
use stevehft.Prelude.Dict.{get_or}
use stevehft.Prelude.Float.{
  Float, nought, is_pos, add, sub, mul, div, neg, sqrt, abs_f, max_f, clamp, decimal, of_ℕ,
}
use stevehft.Data.OnlineStats.LeastSquares.{tabulate, item}

pub record OnlineLeadLagGraphConfig (W : Type 0) : Type 0 where
  pub alpha : W
  pub delay_embedding_dim : ℕ
  pub min_samples : ℕ
  pub score_shrinkage_samples : W
  pub min_abs_score : W
  pub min_asymmetry : W
  pub entropy_confidence_floor : W
  pub max_leaders_per_follower : ℕ
  pub max_abs_signal : W
  pub max_shift_ticks : W
  pub max_spread_residual_ticks : W
  pub max_book_age_ms : W
  pub max_spread_ticks : W

pub record LeadLagPairState (W : Type 0) : Type 0 where
  pub covariance_by_lag : List W
  pub leader_var_by_lag : List W
  pub follower_var_by_lag : List W
  pub mid_ratio_ewma : W
  pub score : W
  pub confidence : W
  pub shrunk_score : W
  pub spread_confidence : W
  pub samples_seen : ℕ

module _ {W : Type 0} ⦃f : Float W⦄ where
  abbrev pub new_pair_state : LeadLagPairState W
  new_pair_state = record {
    covariance_by_lag = [];
    leader_var_by_lag = [];
    follower_var_by_lag = [];
    mid_ratio_ewma = nought;
    score = nought;
    confidence = nought;
    shrunk_score = nought;
    spread_confidence = nought;
    samples_seen = 0;
  }

  -- The newest value first, cut or filled up to the dimension.
  unfoldable pub prepend_embedding_value : W → List W → ℕ → List W
  prepend_embedding_value value previous_embedding embedding_dim =
      let bounded_dim = max embedding_dim 1 in
      let values = value ∷ take (bounded_dim - 1) previous_embedding in
      values ++ replicate (bounded_dim - length values) nought

  abbrev neg_one : W
  neg_one = neg (decimal 1 0)

  -- The sums of the weighted correlations and of the weights, lag by lag.
  abbrev score_loop : List W → LeadLagPairState W → ℕ → W → W → W
  score_loop [] p lag_index weighted_score weight_sum =
      clamp (div weighted_score (max_f weight_sum (decimal 1 9))) neg_one (decimal 1 0)
  score_loop (covariance ∷ rest) p lag_index weighted_score weight_sum =
      let leader_var = item p.leader_var_by_lag lag_index in
      let follower_var = item p.follower_var_by_lag lag_index in
      let denom = max_f (sqrt (mul leader_var follower_var)) (decimal 1 9) in
      let lag_weight = div (decimal 1 0) (of_ℕ (lag_index + 1)) in
      score_loop rest p (suc lag_index)
        (add weighted_score (mul lag_weight (clamp (div covariance denom) neg_one (decimal 1 0))))
        (add weight_sum lag_weight)

  abbrev score_over : List W → LeadLagPairState W → W
  score_over [] p = nought
  score_over (covariance ∷ rest) p = score_loop (covariance ∷ rest) p 0 nought nought

  unfoldable pub pair_score : LeadLagPairState W → W
  pair_score p = score_over p.covariance_by_lag p

  abbrev shrinkage : W → LeadLagPairState W → W
  shrinkage shrinkage_samples p =
      div (of_ℕ p.samples_seen)
        (max_f (add (of_ℕ p.samples_seen) (max_f shrinkage_samples nought)) (decimal 1 9))

  unfoldable pub pair_shrunk_score : W → LeadLagPairState W → W
  pair_shrunk_score shrinkage_samples p =
      mul p.score (clamp (shrinkage shrinkage_samples p) nought (decimal 1 0))

  unfoldable pub pair_spread_confidence : W → LeadLagPairState W → W
  pair_spread_confidence shrinkage_samples p =
      clamp (mul (abs_f p.score) (shrinkage shrinkage_samples p)) nought (decimal 1 0)

  -- The three scores, each from those before it.
  abbrev pub rescored : W → LeadLagPairState W → LeadLagPairState W
  rescored shrinkage_samples p =
      let p1 = record p { score = pair_score p } in
      let p2 = record p1 { shrunk_score = pair_shrunk_score shrinkage_samples p1 } in
      record p2 { spread_confidence = pair_spread_confidence shrinkage_samples p2 }

  -- Lists of another dimension start anew.
  abbrev pub resized : ℕ → LeadLagPairState W → LeadLagPairState W
  resized dim p = if nat_beq (length p.covariance_by_lag) dim then p else record p {
    covariance_by_lag = replicate dim nought;
    leader_var_by_lag = replicate dim nought;
    follower_var_by_lag = replicate dim nought;
  }

  abbrev pub current_ratio : W → W → LeadLagPairState W → W
  current_ratio leader_mid follower_mid p =
      if is_pos leader_mid && is_pos follower_mid
      then div follower_mid leader_mid
      else p.mid_ratio_ewma

  abbrev pub first_sample : ℕ → List W → List W → W → LeadLagPairState W → LeadLagPairState W
  first_sample dim leader follower ratio p = record p {
    covariance_by_lag = tabulate dim (λ i. mul (item leader i) (item follower i));
    leader_var_by_lag = tabulate dim (λ i. mul (item leader i) (item leader i));
    follower_var_by_lag = tabulate dim (λ i. mul (item follower i) (item follower i));
    mid_ratio_ewma = ratio;
    samples_seen = 1;
  }

  -- `(1 - alpha) * old + alpha * a * b`
  abbrev averaged : W → W → W → W → W
  averaged bounded_alpha old a b =
      add (mul (sub (decimal 1 0) bounded_alpha) old) (mul (mul bounded_alpha a) b)

  abbrev pub next_sample : ℕ → W → List W → List W → W → LeadLagPairState W → LeadLagPairState W
  next_sample dim alpha leader follower ratio p = record p {
    covariance_by_lag =
        tabulate dim
          (λ i. averaged alpha (item p.covariance_by_lag i) (item leader i) (item follower i));
    leader_var_by_lag =
        tabulate dim
          (λ i. averaged alpha (item p.leader_var_by_lag i) (item leader i) (item leader i));
    follower_var_by_lag =
        tabulate dim
          (λ i. averaged alpha (item p.follower_var_by_lag i) (item follower i) (item follower i));
    mid_ratio_ewma = add (mul (sub (decimal 1 0) alpha) p.mid_ratio_ewma) (mul alpha ratio);
    samples_seen = p.samples_seen + 1;
  }

  unfoldable pub pair_update :
      List W → W → List W → W → W → W → LeadLagPairState W → LeadLagPairState W
  unfolding pair_score pair_shrunk_score pair_spread_confidence
  pair_update leader leader_mid follower follower_mid alpha shrinkage_samples p =
      let dim = min (length leader) (length follower) in
      let p' = resized dim p in
      let ratio = current_ratio leader_mid follower_mid p' in
      if leb dim 0
      then p
      else if leb p'.samples_seen 0
      then rescored shrinkage_samples (first_sample dim leader follower ratio p')
      else rescored shrinkage_samples
          (next_sample dim (clamp alpha nought (decimal 1 0)) leader follower ratio p')
