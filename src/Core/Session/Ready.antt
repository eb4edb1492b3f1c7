-- ===== src/Core/Session/Ready.antt =====
-- src/core/session.py: what `ensure_connected_and_subscribed` promises when it returns `True`.
use stevehft.Prelude.{
  ◌≡◌, refl, ap, subst, String, Bool, true, false, not, Option, none, some, List, [], ◌∷◌, select,
  if_lem, arith,
}
use stevehft.Prelude.Texts.{Texts}
use stevehft.Core.Session.{
  SessionTrader, ShiftSession, on_trader, with_subscribed, has_any, cleaned, connect,
  subscribe_symbols, health_check, note_subscription, subscription,
}
use stevehft.Core.Session.Repair.{
  is_in, all_in, distinct_after, resubscribe, repair_missing, repair_listed, repair_all,
  repair_requested, repair_subscriptions, repaired_session, and_connected, after_connect,
  after_health, ensure_connected_and_subscribed, current_of, repaired_all,
}

-- Nothing is missing only if everything is there.
pub select_missing :
    (current requested : List String)
    → select (λ (symbol : String). not (is_in current symbol)) requested ≡ []
    → all_in current requested ≡ true
select_missing current [] e = refl
select_missing current (x ∷ xs) e = ground (arith, select_missing current xs)

module _ {T : Type 0} where
  -- What is subscribed to is what was asked for.
  pub IsSubscribed : ShiftSession T → Type 0
  IsSubscribed s =
      (s.status.subscribe_all_books ≡ true → has_any s.status.subscribed_symbols ≡ true)
      × (s.status.subscribe_all_books ≡ false
          → all_in s.status.subscribed_symbols s.status.requested_symbols ≡ true)

  pub IsReady : ShiftSession T → Type 0
  IsReady s = (s.status.connected ≡ true) × IsSubscribed s

  -- A method that returns `True` leaves a session with the property.
  abbrev Succeeds : (ShiftSession T → Type 0) → Option Bool × ShiftSession T → Type 0
  Succeeds P (none, s) = Unit
  Succeeds P (some false, s) = Unit
  Succeeds P (some true, s) = P s

  succeed_if :
      (P : ShiftSession T → Type 0) (b : Bool) (s : ShiftSession T)
      → (b ≡ true → P s)
      → Succeeds P (some b, s)
  succeed_if P true s h = h refl
  succeed_if P false s h = tt

  IsSubscribed-each :
      (s : ShiftSession T)
      → s.status.subscribe_all_books ≡ false
      → all_in s.status.subscribed_symbols s.status.requested_symbols ≡ true
      → IsSubscribed s
  unfolding IsSubscribed
  IsSubscribed-each s each there = ((λ all. absurd cc), λ e. there)

  IsSubscribed-all :
      (s : ShiftSession T)
      → s.status.subscribe_all_books ≡ true
      → has_any s.status.subscribed_symbols ≡ true
      → IsSubscribed s
  unfolding IsSubscribed
  IsSubscribed-all s all there = ((λ e. there), λ each. absurd cc)

  pub note_subscription-all :
      (p : Option (List String) × T) (s : ShiftSession T)
      → s.status.subscribe_all_books ≡ true
      → (note_subscription p s).1.status.subscribe_all_books ≡ true
  note_subscription-all (none, t) s e = e
  note_subscription-all (some symbols, t) s e = e

module _ {T D : Type 0} (tr : SessionTrader T D) ⦃texts : Texts⦄ where
  repair_missing-IsSubscribed :
      (missing current : List String) (s : ShiftSession T)
      → s.status.subscribe_all_books ≡ false
      → (missing ≡ [] → all_in current s.status.requested_symbols ≡ true)
      → Succeeds IsSubscribed (repair_missing tr missing current s)
  repair_missing-IsSubscribed [] current s each h =
      IsSubscribed-each (with_subscribed current s) each (h refl)
  repair_missing-IsSubscribed (m ∷ missing) current s each h =
      let (symbols, t) = resubscribe tr (m ∷ missing) current s.trader in
      let s' = with_subscribed (distinct_after [] symbols) (on_trader t s) in
      succeed_if IsSubscribed _ s' (IsSubscribed-each s' each)

  repair_requested-IsSubscribed :
      (requested : List String) (s : ShiftSession T)
      → s.status.requested_symbols ≡ requested
      → s.status.subscribe_all_books ≡ false
      → Succeeds IsSubscribed (repair_requested tr requested s)
  unfolding repair_listed
  repair_requested-IsSubscribed [] s e each =
      IsSubscribed-each s each (ap (all_in s.status.subscribed_symbols) e)
  repair_requested-IsSubscribed (x ∷ xs) s e each =
      let (answer, t) = tr.get_subscribed_order_book_list s.trader in
      let current = current_of answer s.status.subscribed_symbols in
      repair_missing-IsSubscribed _ current (on_trader t s) each
        (select_missing current s.status.requested_symbols)

  repaired_all-IsSubscribed :
      (p : Option (List String) × ShiftSession T)
      → p.1.status.subscribe_all_books ≡ true
      → Succeeds IsSubscribed (repaired_all p)
  repaired_all-IsSubscribed (none, s) all = tt
  repaired_all-IsSubscribed (some symbols, s) all =
      succeed_if IsSubscribed _ s (IsSubscribed-all s all)

  subscribe_symbols-all :
      (symbols : List String) (s : ShiftSession T)
      → (subscribe_symbols tr symbols true s).1.status.subscribe_all_books ≡ true
  unfolding subscribe_symbols
  subscribe_symbols-all symbols s =
      note_subscription-all (subscription tr true (cleaned symbols) s.trader) _ refl

  repair_all-IsSubscribed :
      (s : ShiftSession T)
      → s.status.subscribe_all_books ≡ true
      → Succeeds IsSubscribed (repair_all tr s)
  repair_all-IsSubscribed s all =
      if_lem (Succeeds IsSubscribed) (has_any s.status.subscribed_symbols) (some true, s) _
        (IsSubscribed-all s all)
        (λ e. repaired_all-IsSubscribed _ (subscribe_symbols-all s.status.requested_symbols s))

  repair_subscriptions-IsSubscribed :
      (s : ShiftSession T) → Succeeds IsSubscribed (repair_subscriptions tr s)
  unfolding repair_subscriptions
  repair_subscriptions-IsSubscribed s =
      if_lem (Succeeds IsSubscribed) s.status.subscribe_all_books _ _ (repair_all-IsSubscribed s)
        (repair_requested-IsSubscribed s.status.requested_symbols s refl)

  and_connected-IsReady :
      (p : Option Bool × ShiftSession T)
      → Succeeds IsSubscribed p
      → Succeeds IsReady (and_connected p)
  unfolding IsReady
  and_connected-IsReady (none, s) h = tt
  and_connected-IsReady (some false, s) h = tt
  and_connected-IsReady (some true, s) h = succeed_if IsReady _ s (λ e. (e, h))

  repaired_session-IsReady : (s : ShiftSession T) → Succeeds IsReady (repaired_session tr s)
  unfolding repaired_session
  repaired_session-IsReady s = and_connected-IsReady _ (repair_subscriptions-IsSubscribed s)

  after_connect-IsReady : (p : Option Bool × ShiftSession T) → Succeeds IsReady (after_connect tr p)
  after_connect-IsReady (none, s) = tt
  after_connect-IsReady (some false, s) = tt
  after_connect-IsReady (some true, s) = repaired_session-IsReady (with_subscribed [] s)

  after_health-IsReady :
      (password : String) (p : Bool × ShiftSession T)
      → Succeeds IsReady (after_health tr password p)
  after_health-IsReady password (true, s) = repaired_session-IsReady s
  after_health-IsReady password (false, s) = after_connect-IsReady (connect tr password s)

  -- When `ensure_connected_and_subscribed` returns `True`, the session is connected, and it is
  -- subscribed to every symbol that was asked for, or to some symbols if all books were asked for.
  pub ensure_connected_and_subscribed-IsReady :
      (password : String) (s s' : ShiftSession T)
      → ensure_connected_and_subscribed tr password s ≡ (some true, s')
      → IsReady s'
  unfolding ensure_connected_and_subscribed
  ensure_connected_and_subscribed-IsReady password s s' e =
      subst (Succeeds IsReady) e (after_health-IsReady password (health_check tr s))
