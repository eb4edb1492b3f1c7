-- ===== src/Core/Session/Recovers.antt =====
-- src/core/session.py: when `ensure_connected_and_subscribed` succeeds.
use stevehft.Prelude.{
  ◌≡◌, refl, sym, ap, ◌∙◌, subst, String, Bool, true, false, Option, none, some, List, [], ◌∷◌,
  ◌++◌, if_lem, string_eq,
}
use mathlib.Core.List.{append-nil, append_assoc}
use stevehft.Prelude.Texts.{Texts}
use stevehft.Core.Session.{
  SessionTrader, ShiftSession, on_trader, health_check, with_connected, or_false,
}
use stevehft.Core.Session.Repair.{
  all_in, distinct_after, resubscribe, repair_missing, repair_listed, repair_requested,
  repair_subscriptions, repaired_session, and_connected, after_health,
  ensure_connected_and_subscribed, current_of,
}
use stevehft.Core.Session.Cover.{all_in-repaired}

module _ {T D : Type 0} (tr : SessionTrader T D) ⦃texts : Texts⦄ where
  -- A trader that takes every subscription.
  resubscribe_lem :
      ((symbol : String) (t : T) → (tr.sub_order_book symbol t).0 ≡ true)
      → (missing symbols : List String) (t : T)
      → (resubscribe tr missing symbols t).0 ≡ symbols ++ missing
  unfolding resubscribe
  resubscribe_lem takes [] symbols t = sym (append-nil symbols)
  resubscribe_lem takes (m ∷ missing) symbols t =
      rw (resubscribe, takes m t)
        (resubscribe_lem takes missing (symbols ++ (m ∷ [])) (tr.sub_order_book m t).1
          ∙ append_assoc symbols (m ∷ []) missing)

  repair_missing_lem :
      ((symbol : String) (t : T) → (tr.sub_order_book symbol t).0 ≡ true)
      → (current missing : List String) (s : ShiftSession T)
      → all_in (distinct_after [] (current ++ missing)) s.status.requested_symbols ≡ true
      → (repair_missing tr missing current s).0 ≡ some true
  repair_missing_lem takes current [] s h = refl
  repair_missing_lem takes current (m ∷ missing) s h = ap some (
      ap (λ symbols. all_in (distinct_after [] symbols) s.status.requested_symbols)
        (resubscribe_lem takes (m ∷ missing) current s.trader)
      ∙ h)

  repair_requested_lem :
      ((symbol : String) (t : T) → (tr.sub_order_book symbol t).0 ≡ true)
      → (requested : List String) (s : ShiftSession T)
      → (repair_requested tr requested s).0 ≡ some true
  unfolding repair_listed
  repair_requested_lem takes [] s = refl
  repair_requested_lem takes (x ∷ xs) s =
      let (answer, t) = tr.get_subscribed_order_book_list s.trader in
      let current = current_of answer s.status.subscribed_symbols in
      repair_missing_lem takes current _ (on_trader t s)
        (all_in-repaired current s.status.requested_symbols)

  repair_missing-connected :
      (missing current : List String) (s : ShiftSession T)
      → (repair_missing tr missing current s).1.status.connected ≡ s.status.connected
  repair_missing-connected [] current s = refl
  repair_missing-connected (m ∷ missing) current s = refl

  repair_requested-connected :
      (requested : List String) (s : ShiftSession T)
      → (repair_requested tr requested s).1.status.connected ≡ s.status.connected
  unfolding repair_listed
  repair_requested-connected [] s = refl
  repair_requested-connected (x ∷ xs) s = repair_missing-connected _ _ _

  and_connected_lem :
      (p : Option Bool × ShiftSession T)
      → p.0 ≡ some true
      → p.1.status.connected ≡ true
      → (and_connected p).0 ≡ some true
  and_connected_lem (none, s) e up = absurd cc
  and_connected_lem (some true, s) e up = ap some up
  and_connected_lem (some false, s) e up = absurd cc

  repaired_session_lem :
      ((symbol : String) (t : T) → (tr.sub_order_book symbol t).0 ≡ true)
      → (s : ShiftSession T) → s.status.subscribe_all_books ≡ false
      → s.status.connected ≡ true
      → (repaired_session tr s).0 ≡ some true
  unfolding repaired_session repair_subscriptions
  repaired_session_lem takes s each up =
      if_lem (λ (p : Option Bool × ShiftSession T). (and_connected p).0 ≡ some true)
        s.status.subscribe_all_books _ _ (λ all. absurd cc)
        (λ e.
          and_connected_lem _ (repair_requested_lem takes s.status.requested_symbols s)
            (repair_requested-connected s.status.requested_symbols s ∙ up))

  -- While the trader is connected and takes every subscription, and unless all books were asked
  -- for, `ensure_connected_and_subscribed` succeeds, whatever the broker lists as subscribed.
  pub ensure_connected_and_subscribed-succeeds :
      (password : String) (s : ShiftSession T)
      → ((t : T) → (tr.is_connected t).0 ≡ some true)
      → ((symbol : String) (t : T) → (tr.sub_order_book symbol t).0 ≡ true)
      → s.status.subscribe_all_books ≡ false
      → (ensure_connected_and_subscribed tr password s).0 ≡ some true
  unfolding ensure_connected_and_subscribed health_check
  ensure_connected_and_subscribed-succeeds password s up takes each =
      let t = (tr.is_connected s.trader).1 in
      subst
        (λ q.
          (after_health tr password (or_false q, with_connected (or_false q) (on_trader t s))).0
          ≡ some true)
        (sym (up s.trader))
        (repaired_session_lem takes (with_connected true (on_trader t s)) each refl)
