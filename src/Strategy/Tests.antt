-- ===== src/Strategy/Tests.antt =====
-- The markouts of one fill.
use stevehft.Prelude.{ℕ, ◌≡◌, refl, true, [], ◌∷◌, string_eq}
use stevehft.Prelude.Int.{pos, ◌-ℤ◌}
use stevehft.Prelude.Dict.{lookup}
use stevehft.Execution.Ledger.{OrderLedger, empty}
use stevehft.Execution.Ledger.Fills.{append_fill}
use stevehft.Execution.Samples.{whole, strokes, fill}
use stevehft.Data.State.{SymbolState, new_symbol_state, new_snapshot, snapshot_spread}
use stevehft.Data.State.Signals.{spread}
use stevehft.Strategy.Signals.{compute_quote_gate}
use stevehft.Strategy.LeadLag.{OnlineLeadLagGraphConfig, new_pair_state}
use stevehft.Strategy.LeadLag.Overlays.{
  Reading, Readings, Edges, build_overlay, candidates, is_passed_over, edge_confidence,
  edge_asymmetry, pair_state, is_tradable,
}
use stevehft.Strategy.LeadLag.Led.{IsLed, build_overlay-IsLed}
use stevehft.Strategy.Markout.{
  AdaptiveState, AdaptiveHistoryConfig, PendingFillMarkout, consume_ready,
}
use stevehft.Strategy.Markout.Ready.{consume_ready_lem}

abbrev config : AdaptiveHistoryConfig ℕ
config = record {
  fill_arrival_age_alpha = 1;
  toxicity_alpha = 1;
  toxicity_markout_delay_ns = pos 500;
  toxicity_max_pending_fills = pos 256;
}

abbrev markout : ℕ → PendingFillMarkout ℕ
markout event_ts_ns = record { side_sign = 1; fill_price = 100; event_ts_ns = event_ts_ns }

abbrev state : AdaptiveState ℕ
state = record {
  initialized = true;
  ewma_passive_fill_arrival_ms = 0;
  ewma_toxicity_score = 0;
  ewma_toxicity_markout_pct = 0;
  pending_fill_markouts = markout 100 ∷ markout 900 ∷ [];
  toxicity_seen_fill_count_by_order_id = ("gone", 2) ∷ [];
}

abbrev booked : OrderLedger ℕ
booked = append_fill fill (empty 1)

consume_ready_lem_example :
    ((consume_ready config 90 1000 state).1.pending_fill_markouts ≡ markout 900 ∷ [])
    × (consume_ready config 95 1000 (consume_ready config 90 1000 state).1 ≡ (
      (consume_ready config 90 1000 state).1.ewma_toxicity_score,
      (consume_ready config 90 1000 state).1,
    ))
consume_ready_lem_example = consume_ready_lem config 90 95 1000 state refl

abbrev quoted : SymbolState ℕ
quoted = record (new_symbol_state "CS1") {
  best_price = record (new_snapshot "CS1") { best_bid_px = 100; best_ask_px = 102 };
}

open_gate : (compute_quote_gate quoted 5 1 500 10).allow_quotes ≡ true
unfolding compute_quote_gate spread snapshot_spread ◌-ℤ◌
open_gate = refl

abbrev graph_config : OnlineLeadLagGraphConfig ℕ
graph_config = record {
  alpha = 1;
  delay_embedding_dim = 4;
  min_samples = 2;
  score_shrinkage_samples = 48;
  min_abs_score = 1;
  min_asymmetry = 1;
  entropy_confidence_floor = 0;
  max_leaders_per_follower = 3;
  max_abs_signal = 2;
  max_shift_ticks = 9;
  max_spread_residual_ticks = 1;
  max_book_age_ms = 500;
  max_spread_ticks = 10;
}

abbrev reading : Reading ℕ
reading = record {
  mid = 100;
  signal = 2;
  signal_embedding = 2 ∷ [];
  return_embedding = 1 ∷ [];
  entropy_confidence = 1;
  tradable = true;
}

abbrev readings : Readings ℕ
readings = ("CS1", reading) ∷ ("CS2", reading) ∷ []

abbrev edges : Edges ℕ
edges = ("CS2", record new_pair_state { shrunk_score = 3; samples_seen = 4 }) ∷ []

build_overlay-IsLed_example :
    IsLed graph_config "CS1" readings [] edges (build_overlay graph_config "CS1" readings [] edges)
build_overlay-IsLed_example = build_overlay-IsLed graph_config "CS1" readings [] edges

led : (build_overlay graph_config "CS1" readings [] edges).leader_symbol ≡ "CS2"
unfolding build_overlay candidates is_passed_over edge_confidence edge_asymmetry pair_state
    is_tradable lookup
led = refl
