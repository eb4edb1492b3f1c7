-- ===== src/Execution/Tests.antt =====
-- Concrete runs of the order ledger, and the theorems at them.
use stevehft.Prelude.{
  ◌≤◌, All, Option, some, ℕ, ◌*◌, ◌<◌, ◌≡◌, refl, String, [], ◌∷◌, arith, any, ◌==◌, string_eq,
  nat_eq, if◌then◌else◌,
}
use stevehft.Prelude.Dict.{lookup, insert}
use stevehft.Execution.Intents.{limit, OrderSide, bid, side_eq}
use stevehft.Execution.Lots.{normalize_lots}
use stevehft.Execution.Lots.Bounds.{normalize_lots_roundtrip, normalize_lots_bounds}
use stevehft.Execution.SymbolLedger.{SymbolOrderLedger, fresh}
use stevehft.Execution.Ledger.{OrderLedger, empty}
use stevehft.Execution.Ledger.Fills.{append_fill, classify, book_session, book_audit}
use stevehft.Execution.Ledger.Audits.{ensured, request, put_audit, ensure_audit}
use stevehft.Execution.Ledger.Fills.Replay.{totals, books_of, append_fill-replay}
use stevehft.Execution.Ledger.Conserved.{IsConserved, empty-IsConserved, append_fill-IsConserved}
use stevehft.Execution.Ledger.Archive.{archive_completed_audits, archive_one}
use stevehft.Execution.Ledger.Archive.Balance.{archive_completed_audits-IsConserved}
use stevehft.Execution.Ledger.Net.{apply_position_baseline}
use stevehft.Execution.Ledger.Net.Baseline.{net_of, broker_of, apply_position_baseline_lem}
use stevehft.Execution.Ledger.Store.{slot_objects}
use stevehft.Execution.Ledger.Live.{live_objects}
use stevehft.Execution.Ledger.Live.Complete.{Wanted, Covers, live_objects_lem}
use stevehft.Execution.Router.Bookings.{register}
use stevehft.Execution.Samples.{buy, whole, strokes, fill, other_fill, portfolio}

normalize_lots_roundtrip_example :
    (normalize_lots 3 5 ≡ 3) × (5 < 3 * 100 → normalize_lots (3 * 100) 5 ≡ 3)
normalize_lots_roundtrip_example = normalize_lots_roundtrip 3 5 (omega arith)

shares_of_five_lots : normalize_lots 250 5 ≡ 3
unfolding normalize_lots
shares_of_five_lots = refl

no_parent : normalize_lots 300 0 ≡ 3
unfolding normalize_lots
no_parent = refl

abbrev slots : SymbolOrderLedger ℕ
slots = record (fresh "AAPL") { bid_level_orders = (2, 7) ∷ []; ask_order = some 3 }

abbrev bid_side : OrderSide
bid_side = bid

abbrev second : ℕ
second = 2

abbrev start : OrderLedger ℕ
start = empty 1

abbrev booked : OrderLedger ℕ
booked = append_fill fill start

append_fill-replay_example :
    (totals (append_fill fill booked) ≡ totals booked)
    × ((id : String) → books_of id (append_fill fill booked) ≡ books_of id booked)
append_fill-replay_example = append_fill-replay fill start

append_fill-IsConserved_example : IsConserved (append_fill fill start)
append_fill-IsConserved_example = append_fill-IsConserved fill start (empty-IsConserved 1)

session_of_one_fill : booked.session_executed_shares ≡ 200
unfolding append_fill classify normalize_lots ensured lookup empty request book_session put_audit
    ensure_audit
session_of_one_fill = refl

-- Two filled orders, of which one audit may be retained.
abbrev small : OrderLedger ℕ
small = record (empty 1) { max_completed_audits_retained = 1 }

small-IsConserved : IsConserved small
unfolding empty lookup
small-IsConserved = record {
  audits = tt;
  named = λ id a found. absurd (cc found);
  shares = refl;
  trades = refl;
}

abbrev two_filled : OrderLedger ℕ
two_filled = append_fill other_fill (append_fill fill small)

archive_completed_audits-IsConserved_example :
    IsConserved (archive_completed_audits 6_000_000_000 two_filled)
archive_completed_audits-IsConserved_example =
    archive_completed_audits-IsConserved 6_000_000_000 two_filled (
      append_fill-IsConserved other_fill (append_fill fill small)
        (append_fill-IsConserved fill small small-IsConserved))

one_archived :
    (archive_completed_audits 6_000_000_000 two_filled).archived_fill_count_by_symbol
    ≡ ("AAPL", 1) ∷ []
unfolding archive_completed_audits append_fill classify normalize_lots ensured lookup empty request
    put_audit insert ensure_audit book_audit archive_one book_session
one_archived = refl

apply_position_baseline_lem_example :
    net_of "AAPL" (apply_position_baseline portfolio.positions ("AAPL" ∷ []) booked) ≡ (
      if any (λ (s : String). s == "AAPL") ("AAPL" ∷ [])
      then broker_of portfolio.positions "AAPL"
      else net_of "AAPL" booked)
apply_position_baseline_lem_example =
    apply_position_baseline_lem portfolio.positions ("AAPL" ∷ []) booked "AAPL"

abbrev placed : OrderLedger ℕ
placed = register buy 100 limit "pending_new" "III" 5 (empty 1)

abbrev wanted_side : Option OrderSide
wanted_side = some bid

live_objects_lem_example :
    All (Wanted (some "AAPL") wanted_side) (live_objects (some "AAPL") wanted_side placed)
    × All
        (λ o.
          Wanted (some "AAPL") wanted_side o
          → Covers (some "AAPL") wanted_side (live_objects (some "AAPL") wanted_side placed) o)
        (slot_objects placed)
live_objects_lem_example = live_objects_lem (some "AAPL") wanted_side placed

normalize_lots_bounds_example : (normalize_lots 250 5 ≤ 5) × (0 < 250 → 0 < normalize_lots 250 5)
normalize_lots_bounds_example = normalize_lots_bounds 250 5 (omega arith) (omega arith)
