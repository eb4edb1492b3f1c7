-- ===== src/Core/Session/Errors.antt =====
-- src/core/session.py: when `ensure_connected_and_subscribed` raises.
use stevehft.Prelude.{
  ◌≡◌, ◌≢◌, refl, ◌∙◌, String, Bool, true, false, Option, none, some, List, [], ◌∷◌, if_lem,
  string_eq,
}
use stevehft.Prelude.Texts.{Texts}
use stevehft.Core.Session.{
  SessionTrader, ShiftSession, on_trader, with_subscribed, connect, connect_as, connected_as,
  health_check,
}
use stevehft.Core.Session.Repair.{
  repair_missing, repair_listed, repair_requested, repair_subscriptions, repaired_session,
  and_connected, after_connect, after_health, ensure_connected_and_subscribed,
}

module _ {T D : Type 0} (tr : SessionTrader T D) where
  connected_as-all :
      (p : Option Bool × T) (s : ShiftSession T)
      → (connected_as tr p s).1.status.subscribe_all_books ≡ s.status.subscribe_all_books
  connected_as-all (none, t) s = refl
  connected_as-all (some c, t) s = refl

  connect_as-all :
      (p : Option Bool × T) (s : ShiftSession T)
      → (connect_as tr p s).1.status.subscribe_all_books ≡ s.status.subscribe_all_books
  connect_as-all (none, t) s = refl
  connect_as-all (some false, t) s = refl
  connect_as-all (some true, t) s = connected_as-all (tr.is_connected t) (on_trader t s)

  connect-all :
      (password : String) (s : ShiftSession T)
      → (connect tr password s).1.status.subscribe_all_books ≡ s.status.subscribe_all_books
  unfolding connect
  connect-all password s = connect_as-all (tr.connect s.initiator_cfg password s.trader) s

module _ {T D : Type 0} (tr : SessionTrader T D) ⦃texts : Texts⦄ where
  repair_missing-returns :
      (missing current : List String) (s : ShiftSession T)
      → (repair_missing tr missing current s).0 ≢ none
  repair_missing-returns [] current s e = absurd cc
  repair_missing-returns (m ∷ missing) current s e = absurd cc

  repair_requested-returns :
      (requested : List String) (s : ShiftSession T) → (repair_requested tr requested s).0 ≢ none
  unfolding repair_listed
  repair_requested-returns [] s e = absurd cc
  repair_requested-returns (x ∷ xs) s e = repair_missing-returns _ _ _ e

  and_connected-returns :
      (p : Option Bool × ShiftSession T) → p.0 ≢ none → (and_connected p).0 ≢ none
  and_connected-returns (none, s) h e = h refl
  and_connected-returns (some b, s) h e = absurd cc

  repaired_session-returns :
      (s : ShiftSession T) → s.status.subscribe_all_books ≡ false → (repaired_session tr s).0 ≢ none
  unfolding repaired_session repair_subscriptions
  repaired_session-returns s each = and_connected-returns _ (
      if_lem (λ (p : Option Bool × ShiftSession T). p.0 ≢ none) s.status.subscribe_all_books _ _
        (λ all. absurd cc) (λ e. repair_requested-returns s.status.requested_symbols s))

  after_connect-returns :
      (p : Option Bool × ShiftSession T)
      → p.1.status.subscribe_all_books ≡ false
      → (after_connect tr p).0 ≢ none
  after_connect-returns (none, s) each e = absurd cc
  after_connect-returns (some false, s) each e = absurd cc
  after_connect-returns (some true, s) each e =
      repaired_session-returns (with_subscribed [] s) each e

  after_health-returns :
      (password : String) (p : Bool × ShiftSession T)
      → p.1.status.subscribe_all_books ≡ false
      → (after_health tr password p).0 ≢ none
  after_health-returns password (true, s) each = repaired_session-returns s each
  after_health-returns password (false, s) each =
      after_connect-returns (connect tr password s) (connect-all tr password s ∙ each)

  -- Unless all books were asked for, `ensure_connected_and_subscribed` does not raise, whatever
  -- calls of the trader do.
  pub ensure_connected_and_subscribed-returns :
      (password : String) (s : ShiftSession T)
      → s.status.subscribe_all_books ≡ false
      → (ensure_connected_and_subscribed tr password s).0 ≢ none
  unfolding ensure_connected_and_subscribed health_check
  ensure_connected_and_subscribed-returns password s each =
      after_health-returns password (health_check tr s) each
