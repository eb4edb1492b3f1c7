-- ===== src/Core/Session.antt =====
-- src/core/session.py: the session with the broker. A call of the trader that raises answers `none`
-- or, where nothing is returned, `false`; a method that raises answers `none`. Log events, and the
-- user name that only they show, are left out, as is the proxy that takes a lock around each call.
use stevehft.Prelude.Texts.{Texts}
pub mod Repair
pub mod Ready
pub mod Cover
pub mod Errors
pub mod Recovers
mod Tests
use stevehft.Prelude.{
  String, Bool, true, false, not, ◌&&◌, Option, none, some, List, [], ◌∷◌, ◌++◌, map, any, select,
  ◌==◌, string_eq, if◌then◌else◌,
}

-- The broker's side, on a state `T`; `D` are the values that `get_last_trade_time` returns.
pub record SessionTrader (T D : Type 0) : Type 0 where
  pub connect : String → String → T → Option Bool × T
  pub disconnect : T → Option Bool × T
  pub is_connected : T → Option Bool × T
  pub sub_order_book : String → T → Bool × T
  pub sub_all_order_book : T → Bool × T
  pub unsub_order_book : String → T → Bool × T
  pub get_subscribed_order_book_list : T → Option (List String) × T
  pub get_stock_list : T → Option (List String) × T
  pub get_last_trade_time : T → Option D × T
  -- `isinstance(trade_time, datetime)`
  pub is_datetime : D → Bool

pub record SessionStatus : Type 0 where
  pub connected : Bool
  pub subscribed_symbols : List String
  pub requested_symbols : List String
  pub subscribe_all_books : Bool
  pub last_connect_ok : Bool
  pub last_disconnect_ok : Bool

pub record ShiftSession (T : Type 0) : Type 0 where
  pub trader : T
  pub initiator_cfg : String
  pub status : SessionStatus

-- `bool(symbols)`
abbrev pub has_any : List String → Bool
has_any [] = false
has_any (x ∷ xs) = true

abbrev pub new_status : SessionStatus
new_status = record {
  connected = false;
  subscribed_symbols = [];
  requested_symbols = [];
  subscribe_all_books = false;
  last_connect_ok = false;
  last_disconnect_ok = false;
}

module _ {T : Type 0} where
  abbrev pub build_shift_session : T → String → ShiftSession T
  build_shift_session trader initiator_cfg = record {
    trader = trader;
    initiator_cfg = initiator_cfg;
    status = new_status;
  }

  abbrev pub on_trader : T → ShiftSession T → ShiftSession T
  on_trader t s = record s { trader = t }

  abbrev pub with_connected : Bool → ShiftSession T → ShiftSession T
  with_connected connected s = record s { status = record s.status { connected = connected } }

  abbrev pub with_subscribed : List String → ShiftSession T → ShiftSession T
  with_subscribed symbols s = record s { status = record s.status { subscribed_symbols = symbols } }

  abbrev note_connect : Bool → Bool → ShiftSession T → ShiftSession T
  note_connect ok connected s = record s {
    status = record s.status { connected = connected; last_connect_ok = ok };
  }

abbrev or_requested : Option (List String) → List String → List String
or_requested none requested = requested
or_requested (some subscribed) requested = subscribed

abbrev pub or_false : Option Bool → Bool
or_false none = false
or_false (some b) = b

module _ ⦃texts : Texts⦄ where
  -- `tuple(symbol.strip().upper() for symbol in symbols if symbol.strip())`
  unfoldable pub cleaned : List String → List String
  cleaned symbols =
      map (λ s. texts.upper (texts.strip s)) (select (λ s. not (texts.strip s == "")) symbols)

  abbrev discovered : Option (List String) → Option (List String)
  discovered none = none
  discovered (some symbols) = some (cleaned symbols)

module _ {T : Type 0} where
  abbrev pub note_subscription :
      Option (List String) × T → ShiftSession T → Option (List String) × ShiftSession T
  note_subscription (none, t) s = (none, on_trader t s)
  note_subscription (some symbols, t) s = (some symbols, with_subscribed symbols (on_trader t s))

  abbrev subscribed_each : List String → Bool × T → Option (List String) × T
  subscribed_each requested (false, t) = (none, t)
  subscribed_each requested (true, t) = (some requested, t)

module _ {T D : Type 0} (tr : SessionTrader T D) where
  -- After the answer of `trader.is_connected`.
  abbrev pub connected_as : Option Bool × T → ShiftSession T → Option Bool × ShiftSession T
  connected_as (none, t) s = (none, on_trader t s)
  connected_as (some connected, t) s = (some connected, note_connect true connected (on_trader t s))

  abbrev pub connect_as : Option Bool × T → ShiftSession T → Option Bool × ShiftSession T
  connect_as (none, t) s = (none, on_trader t s)
  connect_as (some false, t) s = (some false, note_connect false false (on_trader t s))
  connect_as (some true, t) s = connected_as (tr.is_connected t) (on_trader t s)

  unfoldable pub connect : String → ShiftSession T → Option Bool × ShiftSession T
  connect password s = connect_as (tr.connect s.initiator_cfg password s.trader) s

  abbrev pub unsubscribe_all : List String → T → T
  unsubscribe_all [] t = t
  unsubscribe_all (symbol ∷ symbols) t = unsubscribe_all symbols (tr.unsub_order_book symbol t).1

  abbrev pub disconnect_as : Option Bool × T → ShiftSession T → Option Bool × ShiftSession T
  disconnect_as (none, t) s = (none, on_trader t s)
  disconnect_as (some ok, t) s = (
    some ok,
    record s {
      trader = t;
      status = record s.status {
        connected = false;
        subscribed_symbols = [];
        last_disconnect_ok = ok;
      };
    },
  )

  unfoldable pub disconnect : ShiftSession T → Option Bool × ShiftSession T
  disconnect s =
      disconnect_as (tr.disconnect (unsubscribe_all s.status.subscribed_symbols s.trader)) s

  -- The loop over `requested`, which ends at the first call that raises.
  unfoldable pub subscribe_each : List String → T → Bool × T
  subscribe_each [] t = (true, t)
  subscribe_each (symbol ∷ symbols) t =
      let rest = subscribe_each symbols (tr.sub_order_book symbol t).1 in
      if (tr.sub_order_book symbol t).0 then rest else (false, (tr.sub_order_book symbol t).1)

  -- The symbols that are subscribed, `none` if a call raised.
  abbrev pub subscribe_all : List String → Bool × T → Option (List String) × T
  subscribe_all requested (false, t) = (none, t)
  subscribe_all requested (true, t) =
      let (answer, t') = tr.get_subscribed_order_book_list t in
      (some (or_requested answer requested), t')

  abbrev pub subscription : Bool → List String → T → Option (List String) × T
  subscription true requested t = subscribe_all requested (tr.sub_all_order_book t)
  subscription false requested t = subscribed_each requested (subscribe_each requested t)

  module _ ⦃texts : Texts⦄ where
    unfoldable pub subscribe_symbols :
        List String → Bool → ShiftSession T → Option (List String) × ShiftSession T
    subscribe_symbols symbols all s =
        let requested = cleaned symbols in
        note_subscription (subscription all requested s.trader) (record s {
          status = record s.status { requested_symbols = requested; subscribe_all_books = all };
        })

    unfoldable pub discover_symbols : ShiftSession T → Option (List String) × ShiftSession T
    discover_symbols s =
        let (answer, t) = tr.get_stock_list s.trader in (discovered answer, on_trader t s)

  abbrev if_datetime : Option D → Option D
  if_datetime none = none
  if_datetime (some d) = if tr.is_datetime d then some d else none

  unfoldable pub get_last_trade_time : ShiftSession T → Option D × ShiftSession T
  get_last_trade_time s =
      let (answer, t) = tr.get_last_trade_time s.trader in (if_datetime answer, on_trader t s)

  unfoldable pub health_check : ShiftSession T → Bool × ShiftSession T
  health_check s =
      let (answer, t) = tr.is_connected s.trader in
      (or_false answer, with_connected (or_false answer) (on_trader t s))
