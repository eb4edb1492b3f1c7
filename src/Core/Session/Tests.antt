-- ===== src/Core/Session/Tests.antt =====
-- A trader that is connected at its second connection and takes every subscription.
use stevehft.Prelude.{ℕ, zero, suc, ◌≡◌, ◌≢◌, refl, true, false, none, some, [], ◌∷◌}
use stevehft.Prelude.Texts.{Texts}
use stevehft.Core.Session.{
  SessionTrader, ShiftSession, new_status, disconnect, subscribe_symbols, discover_symbols,
  health_check, cleaned,
}
use stevehft.Core.Session.Repair.{
  ensure_connected_and_subscribed, repair_subscriptions, repaired_session, repair_listed,
  resubscribe, distinct_after,
}
use stevehft.Core.Session.Ready.{IsReady, ensure_connected_and_subscribed-IsReady}
use stevehft.Core.Session.Errors.{ensure_connected_and_subscribed-returns}
use stevehft.Core.Session.Recovers.{ensure_connected_and_subscribed-succeeds}

instance abbrev plain : Texts
plain = record { strip = λ s. s; upper = λ s. s; lower = λ s. s }

-- The state counts the connections.
abbrev trader : SessionTrader ℕ ℕ
trader = record {
  connect = λ cfg password t. (some true, suc t);
  disconnect = λ t. (some true, t);
  is_connected = λ t. (some true, t);
  sub_order_book = λ symbol t. (true, t);
  sub_all_order_book = λ t. (false, t);
  unsub_order_book = λ symbol t. (false, t);
  get_subscribed_order_book_list = λ t. (some ("CS1" ∷ []), t);
  get_stock_list = λ t. (some ("CS1" ∷ "" ∷ "CS2" ∷ []), t);
  get_last_trade_time = λ t. (none, t);
  is_datetime = λ d. true;
}

abbrev session : ShiftSession ℕ
session = record {
  trader = zero;
  initiator_cfg = "initiator.cfg";
  status = record new_status { requested_symbols = "CS1" ∷ "CS2" ∷ [] };
}

abbrev repaired : ShiftSession ℕ
repaired = record session {
  status = record session.status { connected = true; subscribed_symbols = "CS1" ∷ "CS2" ∷ [] };
}

ensured : ensure_connected_and_subscribed trader "secret" session ≡ (some true, repaired)
unfolding ensure_connected_and_subscribed health_check repaired_session repair_subscriptions
    repair_listed cleaned resubscribe distinct_after
ensured = refl

ensure_connected_and_subscribed-IsReady_example : IsReady repaired
ensure_connected_and_subscribed-IsReady_example =
    ensure_connected_and_subscribed-IsReady trader "secret" session repaired ensured

ensure_connected_and_subscribed-returns_example :
    (ensure_connected_and_subscribed trader "secret" session).0 ≢ none
ensure_connected_and_subscribed-returns_example =
    ensure_connected_and_subscribed-returns trader "secret" session refl

ensure_connected_and_subscribed-succeeds_example :
    (ensure_connected_and_subscribed trader "secret" session).0 ≡ some true
ensure_connected_and_subscribed-succeeds_example =
    ensure_connected_and_subscribed-succeeds trader "secret" session (λ t. refl) (λ symbol t. refl)
      refl

discovered : (discover_symbols trader session).0 ≡ some ("CS1" ∷ "CS2" ∷ [])
unfolding discover_symbols cleaned
discovered = refl

-- A subscription to all books that raises leaves the subscriptions as they were.
all_books_raise : (subscribe_symbols trader ("CS3" ∷ []) true repaired).0 ≡ none
unfolding subscribe_symbols
all_books_raise = refl

closed : (disconnect trader repaired).1.status.subscribed_symbols ≡ []
unfolding disconnect
closed = refl
