-- ===== src/Core/Session/Repair.antt =====
-- src/core/session.py, `ensure_connected_and_subscribed`: the reconnection and the subscriptions that
-- are missing.
use stevehft.Prelude.{
  String, Bool, true, false, not, ◌&&◌, Option, none, some, List, [], ◌∷◌, ◌++◌, any, select, ◌==◌,
  string_eq, if◌then◌else◌,
}
use stevehft.Prelude.Texts.{Texts}
use stevehft.Core.Session.{
  SessionTrader, ShiftSession, on_trader, with_subscribed, has_any, cleaned, connect,
  subscribe_symbols, health_check,
}

-- `symbol in symbols`
abbrev pub is_in : List String → String → Bool
is_in symbols symbol = any (λ (s : String). s == symbol) symbols

-- `all(symbol in subscribed_set for symbol in requested)`
abbrev pub all_in : List String → List String → Bool
all_in symbols [] = true
all_in symbols (x ∷ xs) = is_in symbols x && all_in symbols xs

-- `tuple(dict.fromkeys(symbols))`, behind the symbols that have been seen.
unfoldable pub distinct_after : List String → List String → List String
distinct_after seen [] = seen
distinct_after seen (x ∷ xs) = distinct_after (if is_in seen x then seen else seen ++ (x ∷ [])) xs

module _ ⦃texts : Texts⦄ where
  abbrev pub current_of : Option (List String) → List String → List String
  current_of none subscribed = subscribed
  current_of (some symbols) subscribed = cleaned symbols

module _ {T : Type 0} where
  abbrev pub repaired_all : Option (List String) × ShiftSession T → Option Bool × ShiftSession T
  repaired_all (none, s) = (none, s)
  repaired_all (some symbols, s) = (some (has_any s.status.subscribed_symbols), s)

  -- `self._repair_subscriptions() and self.status.connected`
  abbrev pub and_connected : Option Bool × ShiftSession T → Option Bool × ShiftSession T
  and_connected (none, s) = (none, s)
  and_connected (some repaired, s) = (some (repaired && s.status.connected), s)

module _ {T D : Type 0} (tr : SessionTrader T D) ⦃texts : Texts⦄ where
  -- The loop over `missing`: a subscription that raises is passed over.
  unfoldable pub resubscribe : List String → List String → T → List String × T
  resubscribe [] symbols t = (symbols, t)
  resubscribe (symbol ∷ missing) symbols t =
      resubscribe missing
        (if (tr.sub_order_book symbol t).0 then symbols ++ (symbol ∷ []) else symbols)
        (tr.sub_order_book symbol t).1

  -- The symbols of `missing`, and the session once they have been subscribed to.
  abbrev pub repair_missing :
      List String → List String → ShiftSession T → Option Bool × ShiftSession T
  repair_missing [] current s = (some true, with_subscribed current s)
  repair_missing (m ∷ missing) current s =
      let (symbols, t) = resubscribe (m ∷ missing) current s.trader in
      let subscribed = distinct_after [] symbols in
      (
        some (all_in subscribed s.status.requested_symbols),
        with_subscribed subscribed (on_trader t s),
      )

  unfoldable pub repair_listed : ShiftSession T → Option Bool × ShiftSession T
  repair_listed s =
      let (answer, t) = tr.get_subscribed_order_book_list s.trader in
      let current = current_of answer s.status.subscribed_symbols in
      repair_missing (select (λ symbol. not (is_in current symbol)) s.status.requested_symbols)
        current (on_trader t s)

  abbrev pub repair_all : ShiftSession T → Option Bool × ShiftSession T
  repair_all s =
      if has_any s.status.subscribed_symbols
      then (some true, s)
      else repaired_all (subscribe_symbols tr s.status.requested_symbols true s)

  abbrev pub repair_requested : List String → ShiftSession T → Option Bool × ShiftSession T
  repair_requested [] s = (some true, s)
  repair_requested (x ∷ xs) s = repair_listed s

  unfoldable pub repair_subscriptions : ShiftSession T → Option Bool × ShiftSession T
  repair_subscriptions s =
      if s.status.subscribe_all_books
      then repair_all s
      else repair_requested s.status.requested_symbols s

  unfoldable pub repaired_session : ShiftSession T → Option Bool × ShiftSession T
  repaired_session s = and_connected (repair_subscriptions s)

  abbrev pub after_connect : Option Bool × ShiftSession T → Option Bool × ShiftSession T
  after_connect (none, s) = (some false, s)
  after_connect (some false, s) = (some false, s)
  after_connect (some true, s) = repaired_session (with_subscribed [] s)

  abbrev pub after_health : String → Bool × ShiftSession T → Option Bool × ShiftSession T
  after_health password (true, s) = repaired_session s
  after_health password (false, s) = after_connect (connect tr password s)

  unfoldable pub ensure_connected_and_subscribed :
      String → ShiftSession T → Option Bool × ShiftSession T
  ensure_connected_and_subscribed password s = after_health password (health_check tr s)
