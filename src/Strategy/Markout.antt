-- ===== src/Strategy/Markout.antt =====
-- src/strategy/markout_tracker.py: the fills whose markout is due later. Of the adaptive state and of
-- the configuration (src/strategy/param_types.py) these are the fields that the tracker uses. A
-- difference of times is compared as a sum.
pub mod Lists
pub mod Queued
pub mod Ready
use stevehft.Prelude.{
  ℕ, ◌+◌, ◌-◌, String, Bool, true, false, ◌&&◌, ◌||◌, Option, none, some, List, [], ◌∷◌, ◌++◌, map,
  any, select, drop, length, min, ltb, leb, ◌==◌, string_eq, if◌then◌else◌,
}
use stevehft.Prelude.Int.{ℤ, pos, pos_part, ◌-ℤ◌}
use stevehft.Prelude.Dict.{Dict, lookup, insert, get_or}
use stevehft.Prelude.Float.{
  Float, sum_from, nought, is_pos, not_pos, add, sub, mul, div, neg, clamp, max_f, decimal, of_ℕ,
}
use stevehft.Execution.Intents.{OrderSide, bid, ask, OrderLiquidity, limit, liquidity_eq}
use stevehft.Execution.Audit.{FillRecord, OrderAuditRecord}
use stevehft.Execution.Ledger.{OrderLedger}
use stevehft.Execution.Ledger.Audits.{audits_for_symbol}
use stevehft.Strategy.ParamMath.{ewma}

pub record PendingFillMarkout (W : Type 0) : Type 0 where
  pub side_sign : W
  pub fill_price : W
  pub event_ts_ns : ℕ

pub record AdaptiveState (W : Type 0) : Type 0 where
  pub initialized : Bool
  pub ewma_passive_fill_arrival_ms : W
  pub ewma_toxicity_score : W
  pub ewma_toxicity_markout_pct : W
  pub pending_fill_markouts : List (PendingFillMarkout W)
  pub toxicity_seen_fill_count_by_order_id : Dict String ℕ

pub record AdaptiveHistoryConfig (W : Type 0) : Type 0 where
  pub fill_arrival_age_alpha : W
  pub toxicity_alpha : W
  pub toxicity_markout_delay_ns : ℤ
  pub toxicity_max_pending_fills : ℤ

-- What the loop gathers: the markouts and scores that are due, and what stays pending.
abbrev pub Gathered : Type 0 → Type 0
Gathered W = List W × List W × List (PendingFillMarkout W)

module _ {W : Type 0} where
  -- The fills behind those that have been seen.
  abbrev pub unseen : OrderAuditRecord W → AdaptiveState W → List (FillRecord W)
  unseen a s =
      drop
        (min (get_or (lookup a.order_id s.toxicity_seen_fill_count_by_order_id) 0) (length a.fills))
        a.fills

  abbrev pub note_seen : OrderAuditRecord W → AdaptiveState W → AdaptiveState W
  note_seen a s = record s {
    toxicity_seen_fill_count_by_order_id =
        insert a.order_id (length a.fills) s.toxicity_seen_fill_count_by_order_id;
  }

  -- The counts of orders that the ledger no longer has are dropped.
  abbrev pub is_active : List (OrderAuditRecord W) → String × ℕ → Bool
  is_active audits entry = any (λ (a : OrderAuditRecord W). a.order_id == entry.0) audits

  abbrev pub drop_stale : List (OrderAuditRecord W) → AdaptiveState W → AdaptiveState W
  drop_stale audits s = record s {
    toxicity_seen_fill_count_by_order_id =
        select (is_active audits) s.toxicity_seen_fill_count_by_order_id;
  }

module _ {W : Type 0} ⦃f : Float W⦄ where
  abbrev sign_of : OrderSide → W
  sign_of bid = decimal 1 0
  sign_of ask = neg (decimal 1 0)

  abbrev mean : List W → W
  mean xs = div (sum_from (of_ℕ 0) xs) (of_ℕ (length xs))

module _ {W : Type 0} ⦃f : Float W⦄ (config : AdaptiveHistoryConfig W) where
  abbrev pub with_arrival : OrderAuditRecord W → FillRecord W → AdaptiveState W → AdaptiveState W
  with_arrival a fill s =
      let fill_arrival_ms =
        max_f (div (of_ℕ (fill.event_ts_ns - a.submitted_ts_ns)) (of_ℕ 1_000_000)) nought in
      record s {
        ewma_passive_fill_arrival_ms =
            ewma s.ewma_passive_fill_arrival_ms fill_arrival_ms config.fill_arrival_age_alpha
              (s.initialized || is_pos s.ewma_passive_fill_arrival_ms);
      }

  abbrev pub note_arrival : OrderAuditRecord W → FillRecord W → AdaptiveState W → AdaptiveState W
  note_arrival a fill s =
      if a.liquidity == limit && ltb 0 a.submitted_ts_ns && leb a.submitted_ts_ns fill.event_ts_ns
      then with_arrival a fill s
      else s

  abbrev pub append_pending : OrderAuditRecord W → FillRecord W → AdaptiveState W → AdaptiveState W
  append_pending a fill s = record s {
    pending_fill_markouts =
        s.pending_fill_markouts
        ++ (record {
          side_sign = sign_of a.side;
          fill_price = fill.executed_price;
          event_ts_ns = fill.event_ts_ns;
        }
            ∷ []);
  }

  unfoldable pub queue_fills :
      OrderAuditRecord W → List (FillRecord W) → AdaptiveState W → AdaptiveState W
  unfolding ewma
  queue_fills a [] s = s
  queue_fills a (fill ∷ fills) s =
      queue_fills a fills (append_pending a fill (note_arrival a fill s))

  unfoldable pub queue_audits : List (OrderAuditRecord W) → AdaptiveState W → AdaptiveState W
  unfolding queue_fills
  queue_audits [] s = s
  queue_audits (a ∷ audits) s = queue_audits audits (note_seen a (queue_fills a (unseen a s) s))

  -- The oldest pending fills are dropped.
  abbrev pub drop_overflow : AdaptiveState W → AdaptiveState W
  drop_overflow s = record s {
    pending_fill_markouts =
        drop (pos_part (pos (length s.pending_fill_markouts) -ℤ config.toxicity_max_pending_fills))
          s.pending_fill_markouts;
  }

  abbrev pub queue_all : List (OrderAuditRecord W) → AdaptiveState W → AdaptiveState W
  queue_all audits s = drop_overflow (drop_stale audits (queue_audits audits s))

  unfoldable pub queue_pending : String → Option (OrderLedger W) → AdaptiveState W → AdaptiveState W
  unfolding queue_audits
  queue_pending symbol none s = s
  queue_pending symbol (some l) s = queue_all (audits_for_symbol symbol l) s

  -- `now_ns - event_ts_ns < delay_ns`
  abbrev pub is_early : ℕ → PendingFillMarkout W → Bool
  is_early now_ns m = ltb now_ns (m.event_ts_ns + pos_part config.toxicity_markout_delay_ns)

  abbrev pub adverse_pct : W → PendingFillMarkout W → W
  adverse_pct current_mid m =
      clamp
        (div (mul (decimal 100 0) (mul m.side_sign (sub m.fill_price current_mid)))
          (max_f m.fill_price (decimal 1 9)))
        nought (decimal 10 0)

  -- A markout is early, has no price, or is scored.
  abbrev pub gather : Bool → Bool → PendingFillMarkout W → W → Gathered W → Gathered W
  gather true bad m pct (pcts, scores, keep) = (pcts, scores, m ∷ keep)
  gather false true m pct (pcts, scores, keep) = (pcts, scores, keep)
  gather false false m pct (pcts, scores, keep) =
      (pct ∷ pcts, clamp (mul (decimal 4 0) pct) nought (decimal 1 0) ∷ scores, keep)

  unfoldable pub consume_loop : W → ℕ → List (PendingFillMarkout W) → Gathered W
  consume_loop current_mid now_ns [] = ([], [], [])
  consume_loop current_mid now_ns (m ∷ pending) =
      gather (is_early now_ns m) (not_pos m.fill_price) m (adverse_pct current_mid m)
        (consume_loop current_mid now_ns pending)

  abbrev pub score_ready : List W → List W → AdaptiveState W → W × AdaptiveState W
  score_ready pcts [] s = (s.ewma_toxicity_score, s)
  score_ready pcts (score ∷ scores) s = (
    mean (score ∷ scores),
    record s {
      ewma_toxicity_markout_pct =
          ewma s.ewma_toxicity_markout_pct (mean pcts) config.toxicity_alpha s.initialized;
    },
  )

  abbrev pub consume_pending :
      W → ℕ → List (PendingFillMarkout W) → AdaptiveState W → W × AdaptiveState W
  consume_pending current_mid now_ns [] s = (s.ewma_toxicity_score, s)
  consume_pending current_mid now_ns (m ∷ pending) s =
      let (pcts, scores, keep) = consume_loop current_mid now_ns (m ∷ pending) in
      score_ready pcts scores (record s { pending_fill_markouts = keep })

  unfoldable pub consume_ready : W → ℕ → AdaptiveState W → W × AdaptiveState W
  unfolding consume_loop
  consume_ready current_mid now_ns s =
      if not_pos current_mid
      then (s.ewma_toxicity_score, s)
      else consume_pending current_mid now_ns s.pending_fill_markouts s
