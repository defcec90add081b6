-- ===== src/Engine/Rows.antt =====
-- What a pass of the backtester adds: one row of equity, and trades after those before.
use mathlib.Core.List.{append-nil, append_assoc}
use xauusd.Prelude.{
  ℕ, ◌+◌, ◌≡◌, refl, sym, ap, ◌∙◌, Option, none, some, List, [], ◌∷◌, ◌++◌, arith, length,
  Bool-cases, inl, inr, subst, length-append, ltb, ◌&&◌,
}
use xauusd.Number.{Number}
use xauusd.Engine.Config.{ExecutionConfig}
use xauusd.Engine.Run.{
  Bar, Signal, Position, Loop, ExitReason, wants, crossed_gap, finance, desired, leave, enter,
  close_if, trade_bar, finish_run, protect, pass, passes, first_loop, set_last, settle_end,
  run_backtest,
}

-- The second list is the first with more after it.
abbrev pub Extends : {A : Type 0} → List A → List A → Type 0
Extends {A = A} xs zs = (ys : List A) × (zs ≡ xs ++ ys)

module _ {A : Type 0} where
  pub Extends-refl : (xs : List A) → Extends xs xs
  Extends-refl xs = ([], sym (append-nil xs))

  pub Extends-trans : (xs ys zs : List A) → Extends xs ys → Extends ys zs → Extends xs zs
  Extends-trans xs ys zs (more, p) (rest, q) =
      (more ++ rest, q ∙ ap (λ l. l ++ rest) p ∙ append_assoc xs more rest)

module _ {F : Type 0} ⦃n : Number F⦄ (c : ExecutionConfig F) where
  finance-trades :
      (o : Option (Position F)) (bar : Bar F) (s : Loop F) → (finance c o bar s).trades ≡ s.trades
  finance-trades none bar s = refl
  finance-trades (some p) bar s =
      elim (Bool-cases (ltb p.entry_i s.i && crossed_gap c s.previous bar)) [
        | inl charged ↦ rw (charged) refl
        | inr free ↦ rw (free) refl
      ]

  leave-Extends :
      (o : Option (Position F)) (bar : Bar F) (s : Loop F)
      → Extends s.trades (leave c o bar s).trades
  leave-Extends none bar s = Extends-refl s.trades
  leave-Extends (some p) bar s = elim (Bool-cases (wants (desired c s) p.side)) [
    | inl kept ↦ rw (kept) (Extends-refl s.trades)
    | inr left ↦ rw (left) (_, refl)
  ]

  enter-trades :
      (o : Option (Position F)) (wanted : Signal) (bar : Bar F) (s : Loop F)
      → (enter c o wanted bar s).trades ≡ s.trades
  enter-trades (some p) wanted bar s = refl
  enter-trades none Signal.flat bar s = refl
  enter-trades none (Signal.toward side) bar s = refl

  close_if-Extends :
      (exit : Option (F × ExitReason)) (p : Position F) (bar : Bar F) (held : ℕ) (s : Loop F)
      → Extends s.trades (close_if c exit p bar held s).trades
  close_if-Extends none p bar held s = Extends-refl s.trades
  close_if-Extends (some (mid, reason)) p bar held s = (_, refl)

  protect-Extends :
      (o : Option (Position F)) (bar : Bar F) (s : Loop F)
      → Extends s.trades (protect c o bar s).trades
  protect-Extends none bar s = Extends-refl s.trades
  protect-Extends (some p) bar s = close_if-Extends _ p bar _ s

  trade_bar-Extends : (bar : Bar F) (s : Loop F) → Extends s.trades (trade_bar c bar s).trades
  trade_bar-Extends bar s =
      let financed = finance c s.position bar s in
      let left = leave c financed.position bar financed in
      let entered = enter c left.position (desired c left) bar left in
      Extends-trans s.trades left.trades _
        (subst (λ l. Extends l left.trades) (finance-trades s.position bar s)
          (leave-Extends financed.position bar financed))
        (subst (λ l. Extends l (protect c entered.position bar entered).trades)
          (enter-trades left.position (desired c left) bar left)
          (protect-Extends entered.position bar entered))

  pass-Extends : (row : Bar F × Signal) (s : Loop F) → Extends s.trades (pass c row s).trades
  unfolding pass
  pass-Extends (bar, signal) s = trade_bar-Extends bar s

  pub passes-Extends :
      (rows : List (Bar F × Signal)) (s : Loop F) → Extends s.trades (passes c rows s).trades
  unfolding passes
  passes-Extends [] s = Extends-refl s.trades
  passes-Extends (row ∷ rows) s =
      Extends-trans s.trades (pass c row s).trades _ (pass-Extends row s)
        (passes-Extends rows (pass c row s))

  pub passes-equity :
      (rows : List (Bar F × Signal)) (s : Loop F)
      → Extends s.equity_rows (passes c rows s).equity_rows
  unfolding passes pass
  passes-equity [] s = Extends-refl s.equity_rows
  passes-equity (row ∷ rows) s =
      Extends-trans s.equity_rows (pass c row s).equity_rows _ (_, refl)
        (passes-equity rows (pass c row s))

  pub passes-append :
      (xs ys : List (Bar F × Signal)) (s : Loop F)
      → passes c (xs ++ ys) s ≡ passes c ys (passes c xs s)
  unfolding passes
  passes-append [] ys s = refl
  passes-append (x ∷ xs) ys s = passes-append xs ys (pass c x s)

  pub passes-length :
      (rows : List (Bar F × Signal)) (s : Loop F)
      → length (passes c rows s).equity_rows ≡ length s.equity_rows + length rows
  unfolding passes pass
  passes-length [] s = omega arith
  passes-length (row ∷ rows) s =
      omega (arith, passes-length rows (pass c row s), length-append s.equity_rows (_ ∷ []))

  -- The equity rows but the last are those of the loop.
  pub set_last-append :
      (es : List (ℕ × F)) (f : ℕ × F) (fs : List (ℕ × F)) (row : ℕ × F)
      → set_last c (es ++ f ∷ fs) row ≡ es ++ set_last c (f ∷ fs) row
  set_last-append [] f fs row = refl
  set_last-append (e ∷ []) f fs row = refl
  set_last-append (e ∷ (d ∷ ds)) f fs row = ap (λ l. e ∷ l) (set_last-append (d ∷ ds) f fs row)

  pub settle_end-Extends :
      (o : Option (Position F)) (last : Option (Bar F × Signal)) (s : Loop F)
      → Extends s.trades (settle_end c o last s).trades
  settle_end-Extends none last s = Extends-refl s.trades
  settle_end-Extends (some p) none s = Extends-refl s.trades
  settle_end-Extends (some p) (some (bar, signal)) s = (_, refl)

  -- A run with a bar is the loop over its bars, settled.
  pub run_backtest-append :
      (xs : List (Bar F × Signal)) (r : Bar F × Signal) (rs : List (Bar F × Signal))
      → run_backtest c (xs ++ r ∷ rs) ≡ some (finish_run c (passes c (xs ++ r ∷ rs) (first_loop c)))
  unfolding run_backtest
  run_backtest-append [] r rs = refl
  run_backtest-append (x ∷ xs) r rs = refl
