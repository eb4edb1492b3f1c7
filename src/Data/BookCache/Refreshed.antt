-- ===== src/Data/BookCache/Refreshed.antt =====
-- src/data/book_cache.py, `refresh_symbol`: the state that it leaves, errors included.
use stevehft.Prelude.{
  ℕ, ◌≡◌, refl, ap, ◌∙◌, String, true, false, Option, none, some, some-injective, subst, if_lem,
  ◌==◌, string_eq, if◌then◌else◌,
}
use stevehft.Prelude.Int.{ℤ}
use stevehft.Prelude.Dict.{lookup, lookup-insert, lookup-insert_self}
use stevehft.Prelude.Float.{Float}
use stevehft.Data.State.{SymbolState, MarketState, ensure_symbol, ensured, new_symbol_state}
use stevehft.Data.BookCache.{BestPrice, normalize_best_price}
use stevehft.Data.BookCache.Flow.{level_price, level_size}
use stevehft.Data.BookCache.Refresh.{
  Answer, no_attribute, failed, answered, MarketTrader, BookCache, Refreshed, with_voi, size_read,
  price_read, finish, local_best_if, read_books, best_read, written, refresh_symbol,
}

module _ {W : Type 0} ⦃f : Float W⦄ where
  -- The best local prices and sizes are those of the first local levels.
  pub IsCoherent : SymbolState W → Type 0
  IsCoherent s =
      (s.best_price.local_bid_px ≡ level_price s.local_bids)
      × (s.best_price.local_bid_sz ≡ level_size s.local_bids)
      × (s.best_price.local_ask_px ≡ level_price s.local_asks)
      × (s.best_price.local_ask_sz ≡ level_size s.local_asks)

  with_voi-IsCoherent :
      (max_depth : ℤ) (previous s : SymbolState W)
      → IsCoherent s
      → IsCoherent (with_voi max_depth previous s)
  unfolding IsCoherent
  with_voi-IsCoherent max_depth previous s h = h

module _ {T W : Type 0} where
  abbrev Proceeds : (SymbolState W → Type 0) → Refreshed T W → Type 0
  Proceeds P (false, s, t) = Unit
  Proceeds P (true, s, t) = P s

module _ {T W : Type 0} ⦃f : Float W⦄ where
  local_best_if-IsCoherent : (r : Refreshed T W) → Proceeds IsCoherent (local_best_if r)
  unfolding IsCoherent
  local_best_if-IsCoherent (false, s, t) = tt
  local_best_if-IsCoherent (true, s, t) = (refl, refl, refl, refl)

  size_read-IsCoherent :
      (ts_ns : ℕ) (s : SymbolState W) (a : Answer ℤ × T)
      → IsCoherent s
      → Proceeds IsCoherent (size_read ts_ns s a)
  unfolding IsCoherent
  size_read-IsCoherent ts_ns s (no_attribute, t) h = h
  size_read-IsCoherent ts_ns s (failed, t) h = tt
  size_read-IsCoherent ts_ns s (answered size, t) h = h

module _ {T W : Type 0} ⦃f : Float W⦄ (tr : MarketTrader T W) where
  price_read-IsCoherent :
      (symbol : String) (ts_ns : ℕ) (s : SymbolState W) (a : Answer W × T)
      → IsCoherent s
      → Proceeds IsCoherent (price_read tr symbol ts_ns s a)
  unfolding IsCoherent
  price_read-IsCoherent symbol ts_ns s (no_attribute, t) h = h
  price_read-IsCoherent symbol ts_ns s (failed, t) h = tt
  price_read-IsCoherent symbol ts_ns s (answered price, t) h =
      size_read-IsCoherent ts_ns _ (tr.get_last_size symbol t) h

  finish-IsCoherent :
      (symbol : String) (max_depth : ℤ) (ts_ns : ℕ) (previous : SymbolState W) (r : Refreshed T W)
      → Proceeds IsCoherent r
      → Proceeds IsCoherent (finish tr symbol max_depth ts_ns previous r)
  finish-IsCoherent symbol max_depth ts_ns previous (false, s, t) h = tt
  finish-IsCoherent symbol max_depth ts_ns previous (true, s, t) h =
      price_read-IsCoherent symbol ts_ns (with_voi max_depth previous s)
        (tr.get_last_price symbol t) (with_voi-IsCoherent max_depth previous s h)

  best_read-IsCoherent :
      (cache : BookCache W) (symbol : String) (max_depth : ℤ) (ts_ns : ℕ) (s : SymbolState W)
      (a : Option (BestPrice W) × T)
      → cache.has_order_book_type ≡ true
      → Proceeds IsCoherent (best_read tr cache symbol max_depth ts_ns s a)
  unfolding read_books
  best_read-IsCoherent cache symbol max_depth ts_ns s (none, t) typed = tt
  best_read-IsCoherent cache symbol max_depth ts_ns s (some b, t) typed =
      let s' = record s {
        best_price = normalize_best_price symbol b ts_ns;
        last_book_update_ns = ts_ns;
      } in
      if_lem (λ (r : Refreshed T W). Proceeds IsCoherent (finish tr symbol max_depth ts_ns s r))
        cache.has_order_book_type (read_books tr cache.order_ledger symbol max_depth s' t)
        (true, s', t)
        (λ e. finish-IsCoherent symbol max_depth ts_ns s _ (local_best_if-IsCoherent _))
        (λ e. absurd cc)

module _ {T W : Type 0} where
  written_lem :
      (P : SymbolState W → Type 0) (symbol : String) (m : MarketState W) (cache : BookCache W)
      (r : Refreshed T W) (s : SymbolState W)
      → Proceeds P r
      → (written symbol m cache r).0 ≡ some s
      → P s × (lookup symbol (written symbol m cache r).1.market_state ≡ some s)
  written_lem P symbol m cache (false, q, t) s h e = absurd cc
  written_lem P symbol m cache (true, q, t) s h e =
      (subst P (some-injective q s e) h, lookup-insert_self symbol q m ∙ e)

module _ {T W : Type 0} ⦃f : Float W⦄ (tr : MarketTrader T W) where
  -- When `refresh_symbol` returns a state, this is the one that the market state has for the symbol,
  -- and its best local prices and sizes are those of its first local levels, where the order books are
  -- read.
  pub refresh_symbol-IsCoherent :
      (symbol : String) (max_depth : ℤ) (ts_ns : ℕ) (cache : BookCache W) (t : T)
      (s : SymbolState W)
      → cache.has_order_book_type ≡ true
      → (refresh_symbol tr symbol max_depth ts_ns cache t).0 ≡ some s
      → IsCoherent s
        × (lookup symbol (refresh_symbol tr symbol max_depth ts_ns cache t).1.market_state ≡ some s)
  unfolding refresh_symbol
  refresh_symbol-IsCoherent symbol max_depth ts_ns cache t s typed e =
      let (old, m) = ensure_symbol symbol cache.market_state in
      let r = best_read tr cache symbol max_depth ts_ns old (tr.get_best_price symbol t) in
      written_lem IsCoherent symbol m cache r s
        (best_read-IsCoherent tr cache symbol max_depth ts_ns old (tr.get_best_price symbol t)
          typed)
        e

  ensured_other :
      (o : Option (SymbolState W)) (symbol other : String) (m : MarketState W)
      → (symbol == other) ≡ false
      → lookup other (ensured o symbol m).1 ≡ lookup other m
  ensured_other none symbol other m apart =
      lookup-insert symbol other (new_symbol_state symbol) m
      ∙ ap (λ b. if b then some (new_symbol_state symbol) else lookup other m) apart
  ensured_other (some s) symbol other m apart = refl

  -- However the calls of the trader end, `refresh_symbol` leaves the states of the other symbols
  -- alone.
  pub refresh_symbol_other :
      (symbol other : String) (max_depth : ℤ) (ts_ns : ℕ) (cache : BookCache W) (t : T)
      → (symbol == other) ≡ false
      → lookup other (refresh_symbol tr symbol max_depth ts_ns cache t).1.market_state
        ≡ lookup other cache.market_state
  unfolding refresh_symbol ensure_symbol
  refresh_symbol_other symbol other max_depth ts_ns cache t apart =
      let (old, m) = ensure_symbol symbol cache.market_state in
      let r = best_read tr cache symbol max_depth ts_ns old (tr.get_best_price symbol t) in
      lookup-insert symbol other r.1 m
      ∙ ap (λ b. if b then some r.1 else lookup other m) apart
      ∙ ensured_other (lookup symbol cache.market_state) symbol other cache.market_state apart
