-- ===== src/Strategy/Markout/Ready.antt =====
-- src/strategy/markout_tracker.py, `consume_ready`: which fills are scored and which stay.
use stevehft.Prelude.{
  ℕ, ◌≡◌, refl, ap, ◌∙◌, sym, subst, Bool, true, false, List, [], ◌∷◌, select, if_lem,
  if◌then◌else◌,
}
use stevehft.Prelude.Float.{Float, not_pos}
use stevehft.Strategy.Markout.{
  AdaptiveState, AdaptiveHistoryConfig, PendingFillMarkout, Gathered, gather, adverse_pct, is_early,
  consume_loop, score_ready, consume_pending, consume_ready,
}

module _ {W : Type 0} ⦃f : Float W⦄ (config : AdaptiveHistoryConfig W) where
  gather-kept :
      (early bad : Bool) (m : PendingFillMarkout W) (pct : W) (r : Gathered W)
      → (gather config early bad m pct r).2 ≡ (if early then m ∷ (r.2) else r.2)
  gather-kept true bad m pct (pcts, scores, keep) = refl
  gather-kept false true m pct (pcts, scores, keep) = refl
  gather-kept false false m pct (pcts, scores, keep) = refl

  consume_loop-kept :
      (current_mid : W) (now_ns : ℕ) (pending : List (PendingFillMarkout W))
      → (consume_loop config current_mid now_ns pending).2 ≡ select (is_early config now_ns) pending
  unfolding consume_loop
  consume_loop-kept current_mid now_ns [] = refl
  consume_loop-kept current_mid now_ns (m ∷ pending) =
      gather-kept (is_early config now_ns m) (not_pos m.fill_price) m
        (adverse_pct config current_mid m) (consume_loop config current_mid now_ns pending)
      ∙ ap (λ keep. if is_early config now_ns m then m ∷ keep else keep)
          (consume_loop-kept current_mid now_ns pending)

  -- Nothing is due among the fills that were kept.
  consume_loop-early :
      (current_mid : W) (now_ns : ℕ) (pending : List (PendingFillMarkout W))
      → consume_loop config current_mid now_ns (select (is_early config now_ns) pending)
        ≡ ([], [], select (is_early config now_ns) pending)
  unfolding consume_loop
  consume_loop-early current_mid now_ns [] = refl
  consume_loop-early current_mid now_ns (m ∷ pending) =
      let keep = select (is_early config now_ns) pending in
      let rest = consume_loop-early current_mid now_ns pending in
      if_lem
        (λ (q : List (PendingFillMarkout W)).
          consume_loop config current_mid now_ns q ≡ ([], [], q))
        (is_early config now_ns m) (m ∷ keep) keep
        (λ e.
          ap
            (gather config (is_early config now_ns m) (not_pos m.fill_price) m
              (adverse_pct config current_mid m))
            rest
          ∙ ap
              (λ b.
                gather config b (not_pos m.fill_price) m (adverse_pct config current_mid m)
                  ([], [], keep))
              e)
        (λ e. rest)

  score_ready-pending :
      (pcts scores : List W) (s : AdaptiveState W)
      → (score_ready config pcts scores s).1.pending_fill_markouts ≡ s.pending_fill_markouts
  score_ready-pending pcts [] s = refl
  score_ready-pending pcts (score ∷ scores) s = refl

  consume_pending-kept :
      (current_mid : W) (now_ns : ℕ) (pending : List (PendingFillMarkout W)) (s : AdaptiveState W)
      → s.pending_fill_markouts ≡ pending
      → (consume_pending config current_mid now_ns pending s).1.pending_fill_markouts
        ≡ select (is_early config now_ns) pending
  consume_pending-kept current_mid now_ns [] s e = e
  consume_pending-kept current_mid now_ns (m ∷ pending) s e =
      let r = consume_loop config current_mid now_ns (m ∷ pending) in
      score_ready-pending (r.0) (r.1) (record s { pending_fill_markouts = r.2 })
      ∙ consume_loop-kept current_mid now_ns (m ∷ pending)

  consume_pending-early :
      (current_mid : W) (now_ns : ℕ) (pending : List (PendingFillMarkout W)) (s : AdaptiveState W)
      → s.pending_fill_markouts ≡ pending
      → consume_loop config current_mid now_ns pending ≡ ([], [], pending)
      → consume_pending config current_mid now_ns pending s ≡ (s.ewma_toxicity_score, s)
  consume_pending-early current_mid now_ns [] s e h = refl
  consume_pending-early current_mid now_ns (m ∷ pending) s e h =
      ap
        (λ (r : Gathered W).
          score_ready config (r.0) (r.1) (record s { pending_fill_markouts = r.2 }))
        h
      ∙ ap (λ ms. (s.ewma_toxicity_score, record s { pending_fill_markouts = ms })) (sym e)

  again :
      (later_mid : W) (now_ns : ℕ) (s : AdaptiveState W) (pending : List (PendingFillMarkout W))
      → s.pending_fill_markouts ≡ select (is_early config now_ns) pending
      → consume_ready config later_mid now_ns s ≡ (s.ewma_toxicity_score, s)
  unfolding consume_ready
  again later_mid now_ns s pending kept =
      if_lem (λ (q : W × AdaptiveState W). q ≡ (s.ewma_toxicity_score, s)) (not_pos later_mid)
        (s.ewma_toxicity_score, s)
        (consume_pending config later_mid now_ns s.pending_fill_markouts s) (λ e. refl)
        (λ e. consume_pending-early later_mid now_ns s.pending_fill_markouts s refl (
          subst (λ ms. consume_loop config later_mid now_ns ms ≡ ([], [], ms)) (sym kept)
            (consume_loop-early later_mid now_ns pending)))

  consume_ready-kept :
      (current_mid : W) (now_ns : ℕ) (s : AdaptiveState W)
      → not_pos current_mid ≡ false
      → (consume_ready config current_mid now_ns s).1.pending_fill_markouts
        ≡ select (is_early config now_ns) s.pending_fill_markouts
  unfolding consume_ready
  consume_ready-kept current_mid now_ns s positive =
      ap
        (λ b.
          (if b
            then (s.ewma_toxicity_score, s)
            else consume_pending config current_mid now_ns s.pending_fill_markouts
                s).1.pending_fill_markouts)
        positive
      ∙ consume_pending-kept current_mid now_ns s.pending_fill_markouts s refl

  -- At a known price, `consume_ready` leaves the fills pending whose delay has not passed, in their
  -- order, and no others. A second call at that time, at any price, scores nothing and changes nothing.
  pub consume_ready_lem :
      (current_mid later_mid : W) (now_ns : ℕ) (s : AdaptiveState W)
      → not_pos current_mid ≡ false
      → ((consume_ready config current_mid now_ns s).1.pending_fill_markouts
          ≡ select (is_early config now_ns) s.pending_fill_markouts)
        × (consume_ready config later_mid now_ns (consume_ready config current_mid now_ns s).1 ≡ (
          (consume_ready config current_mid now_ns s).1.ewma_toxicity_score,
          (consume_ready config current_mid now_ns s).1,
        ))
  consume_ready_lem current_mid later_mid now_ns s positive =
      let kept = consume_ready-kept current_mid now_ns s positive in
      (kept, again later_mid now_ns (consume_ready config current_mid now_ns s).1 _ kept)
