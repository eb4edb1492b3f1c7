-- ===== src/Strategy/LeadLag/Led.antt =====
-- src/strategy/lead_lag_graph.py, `_build_overlay`: who leads a follower.
use stevehft.Prelude.{
  Bool-cases, ℕ, zero, suc, ◌≤◌, ◌<◌, ◌≡◌, refl, true, false, ◌⊎◌, inl, inr, String, List, [], ◌∷◌,
  All, take, max, if_lem, string_eq, arith,
}
use stevehft.Prelude.Dict.{Dict}
use stevehft.Prelude.Float.{Float, lt, abs_f, not_pos}
use stevehft.Strategy.LeadLag.{OnlineLeadLagGraphConfig, LeadLagPairState}
use stevehft.Strategy.LeadLag.Overlays.{
  LeadLagFollowerOverlay, Candidate, Edges, Readings, is_tradable, no_follower_overlay, rank_in,
  ranked, edge_asymmetry, edge_confidence, is_passed_over, candidates, overlay_of, build_overlay,
}

module _ {ℓ} {A : Type ℓ} (P : A → Type 0) where
  All-take : (n : ℕ) (xs : List A) → All P xs → All P (take n xs)
  All-take zero xs h = tt
  All-take (suc n) [] h = tt
  All-take (suc n) (x ∷ xs) (p, h) = (p, All-take n xs h)

take_none : {A : Type 0} (n : ℕ) (xs : List A) → 0 < n → take n xs ≡ [] → xs ≡ []
take_none zero xs p h = absurd (omega (arith, p))
take_none (suc n) [] p h = refl
take_none (suc n) (x ∷ xs) p h = absurd (ground (arith, h))

module _ {W : Type 0} ⦃f : Float W⦄ where
  rank_in_some : (c : Candidate W) (cs : List (Candidate W)) → ¬ (rank_in c cs ≡ [])
  rank_in_some c [] h = ground (arith, h)
  rank_in_some c (d ∷ ds) h =
      if_lem (λ (cs : List (Candidate W)). ¬ (cs ≡ [])) (lt (c.0) (d.0)) (d ∷ rank_in c ds)
        (c ∷ d ∷ ds) (λ e e'. ground (arith, e')) (λ e e'. ground (arith, e')) h

  ranked_none : (cs : List (Candidate W)) → ranked cs ≡ [] → cs ≡ []
  ranked_none [] h = refl
  ranked_none (c ∷ cs) h = absurd (rank_in_some c (ranked cs) h)

  All-rank_in :
      (P : Candidate W → Type 0) (c : Candidate W) (cs : List (Candidate W))
      → P c
      → All P cs
      → All P (rank_in c cs)
  All-rank_in P c [] p h = (p, tt)
  All-rank_in P c (d ∷ ds) p (q, h) =
      if_lem (All P) (lt (c.0) (d.0)) (d ∷ rank_in c ds) (c ∷ d ∷ ds)
        (λ e. (q, All-rank_in P c ds p h)) (λ e. (p, (q, h)))

  All-ranked : (P : Candidate W → Type 0) (cs : List (Candidate W)) → All P cs → All P (ranked cs)
  All-ranked P [] h = tt
  All-ranked P (c ∷ cs) (p, h) = All-rank_in P c (ranked cs) p (All-ranked P cs h)

module _ {W : Type 0} ⦃f : Float W⦄ (config : OnlineLeadLagGraphConfig W) (follower : String)
    (readings : Readings W) (graph : Dict String (Edges W)) where
  -- The edge may lead the follower: it has been seen often enough, its score and its lead over the edge
  -- that goes the other way are large enough, it is trusted, and both symbols can be traded.
  pub record MayLead (leader : String) (edge : LeadLagPairState W) : Type 0 where
    pub seen : config.min_samples ≤ edge.samples_seen
    pub score : lt (abs_f edge.shrunk_score) config.min_abs_score ≡ false
    pub lead : lt (edge_asymmetry config follower leader graph edge) config.min_asymmetry ≡ false
    pub trusted : not_pos (edge_confidence config follower leader readings graph edge) ≡ false
    pub leader_tradable : is_tradable leader readings ≡ true
    pub follower_tradable : is_tradable follower readings ≡ true

  -- The edge is one of these, with this leader.
  abbrev pub IsEdge : String → LeadLagPairState W → Edges W → Type 0
  IsEdge leader edge [] = ⊥
  IsEdge leader edge ((other, e) ∷ edges) =
      ((other ≡ leader) × (e ≡ edge)) ⊎ IsEdge leader edge edges

  -- The candidate is one of the edges that may lead, with its score.
  abbrev IsGood : Edges W → Candidate W → Type 0
  IsGood edges c =
      (edge : LeadLagPairState W) × IsEdge (c.1) edge edges
      × MayLead (c.1) edge
      × (c.2.shrunk_score ≡ edge.shrunk_score)

  IsGood-cons :
      (entry : String × LeadLagPairState W) (edges : Edges W) (cs : List (Candidate W))
      → All (IsGood edges) cs
      → All (IsGood (entry ∷ edges)) cs
  IsGood-cons entry edges [] h = tt
  IsGood-cons entry edges (c ∷ cs) ((edge, found, good, same), h) =
      ((edge, inr found, good, same), IsGood-cons entry edges cs h)

  not_passed_over :
      (leader : String) (edge : LeadLagPairState W)
      → is_passed_over config follower leader readings graph edge ≡ false
      → MayLead leader edge
  unfolding is_passed_over
  not_passed_over leader edge h = record {
    seen = ground (arith, h);
    score = ground (arith, h);
    lead = ground (arith, h);
    trusted = ground (arith, h);
    leader_tradable = ground (arith, h);
    follower_tradable = ground (arith, h);
  }

  passed_over :
      (leader : String) (edge : LeadLagPairState W)
      → is_passed_over config follower leader readings graph edge ≡ true
      → ¬ MayLead leader edge
  unfolding is_passed_over
  passed_over leader edge h m =
      ground (arith, h, m.seen, m.score, m.lead, m.trusted, m.leader_tradable, m.follower_tradable)

  candidates-IsGood :
      (edges : Edges W) → All (IsGood edges) (candidates config follower readings graph edges)
  unfolding candidates
  candidates-IsGood [] = tt
  candidates-IsGood ((leader, edge) ∷ edges) =
      let confidence = edge_confidence config follower leader readings graph edge in
      let rest = candidates config follower readings graph edges in
      let later = IsGood-cons (leader, edge) edges rest (candidates-IsGood edges) in
      if_lem (All (IsGood ((leader, edge) ∷ edges)))
        (is_passed_over config follower leader readings graph edge) rest
        ((confidence, leader, record edge { confidence = confidence }) ∷ rest) (λ e. later)
        (λ e. ((edge, inl (refl, refl), not_passed_over leader edge e, refl), later))

  -- No edge may lead the follower.
  abbrev pub HasNone : Edges W → Type 0
  HasNone edges = All (λ (entry : String × LeadLagPairState W). ¬ MayLead (entry.0) (entry.1)) edges

  candidates-HasNone :
      (edges : Edges W) → candidates config follower readings graph edges ≡ [] → HasNone edges
  unfolding candidates
  candidates-HasNone [] h = tt
  candidates-HasNone ((leader, edge) ∷ edges) h =
      elim (Bool-cases (is_passed_over config follower leader readings graph edge)) [
        | inl passed ↦ (passed_over leader edge passed, candidates-HasNone edges (rw passed at h))
        | inr kept ↦ absurd (ground (arith, (rw kept at h)))
      ]

  -- There is no overlay, for no edge may lead; or it names a leader whose edge is one of these and may
  -- lead, with the score of that edge.
  pub IsLed : Edges W → LeadLagFollowerOverlay W → Type 0
  IsLed edges o =
      ((o ≡ no_follower_overlay) × HasNone edges)
      ⊎ ((edge : LeadLagPairState W) × IsEdge o.leader_symbol edge edges
          × MayLead o.leader_symbol edge
          × (o.edge_score ≡ edge.shrunk_score))

  overlay_of-IsLed :
      (edges : Edges W) (selected : List (Candidate W))
      → All (IsGood edges) selected
      → (selected ≡ [] → HasNone edges)
      → IsLed edges (overlay_of config selected readings)
  unfolding IsLed
  overlay_of-IsLed edges [] h none_left = inl (refl, none_left refl)
  overlay_of-IsLed edges ((confidence, leader, c) ∷ rest) ((edge, found, good, same), h) none_left =
      inr (edge, found, good, same)

  -- A follower has no overlay if none of its edges may lead. If one may, the overlay names the leader of
  -- an edge that may lead, with the score of that edge: it has been seen often enough, its score and its
  -- lead over the edge that goes the other way are large enough, it is trusted, and both symbols can be
  -- traded.
  pub build_overlay-IsLed :
      (edges : Edges W) → IsLed edges (build_overlay config follower readings graph edges)
  unfolding build_overlay
  build_overlay-IsLed edges =
      let found = candidates config follower readings graph edges in
      let count = max config.max_leaders_per_follower 1 in
      overlay_of-IsLed edges (take count (ranked found))
        (All-take (IsGood edges) count (ranked found)
          (All-ranked (IsGood edges) found (candidates-IsGood edges)))
        (λ e.
          candidates-HasNone edges
            (ranked_none found (take_none count (ranked found) (omega arith) e)))
