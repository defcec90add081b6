-- ===== src/Engine/Causal.antt =====
-- That the backtester does not look ahead.
use mathlib.Core.List.{append_assoc}
use xauusd.Prelude.{
  ℕ, suc, ◌≡◌, sym, ap, ◌∙◌, Option, none, some, List, [], ◌∷◌, ◌++◌, arith, length, subst,
  length-append,
}
use xauusd.Number.{Number}
use xauusd.Engine.Config.{ExecutionConfig}
use xauusd.Engine.Run.{
  Bar, Signal, Position, Loop, pass, passes, first_loop, set_last, settle_end, finish_run,
  run_backtest,
}
use xauusd.Engine.Rows.{
  Extends, Extends-trans, passes-equity, passes-append, passes-Extends, settle_end-Extends,
  passes-length, set_last-append, run_backtest-append,
}

module _ {F : Type 0} ⦃n : Number F⦄ (c : ExecutionConfig F) where
  set_last-Extends :
      (es : List (ℕ × F)) (f : ℕ × F) (fs rows : List (ℕ × F)) (row : ℕ × F)
      → rows ≡ es ++ f ∷ fs
      → Extends es (set_last c rows row)
  set_last-Extends es f fs rows row h =
      (set_last c (f ∷ fs) row, ap (λ l. set_last c l row) h ∙ set_last-append c es f fs row)

  -- Closing the last position leaves the rows before the last.
  settle_end-equity :
      (es : List (ℕ × F)) (f : ℕ × F) (fs : List (ℕ × F)) (o : Option (Position F))
      (last : Option (Bar F × Signal)) (s : Loop F)
      → s.equity_rows ≡ es ++ f ∷ fs
      → Extends es (settle_end c o last s).equity_rows
  settle_end-equity es f fs none last s h = (f ∷ fs, h)
  settle_end-equity es f fs (some p) none s h = (f ∷ fs, h)
  settle_end-equity es f fs (some p) (some (bar, signal)) s h =
      set_last-Extends es f fs s.equity_rows _ h

  -- The loop up to a bar, whatever its signal, begins a run over this bar and more.
  abbrev pub Begins : Loop F → Loop F → Type 0
  Begins past z = Extends past.equity_rows z.equity_rows × Extends past.trades z.trades

  run-Extends :
      (xs : List (Bar F × Signal)) (b : Bar F) (signal other : Signal) (y : Bar F × Signal)
      (ys : List (Bar F × Signal))
      → (z : Loop F) × (run_backtest c (xs ++ (b, signal) ∷ y ∷ ys) ≡ some z)
        × Begins (passes c (xs ++ (b, other) ∷ []) (first_loop c)) z
  unfolding pass passes
  run-Extends xs b signal other y ys =
      let past = passes c xs (first_loop c) in
      let now = pass c (b, signal) past in
      let next = pass c y now in
      let (more, e) = passes-equity c ys next in
      let s = passes c (xs ++ (b, signal) ∷ y ∷ ys) (first_loop c) in
      let whole : s ≡ passes c ys next = passes-append c xs ((b, signal) ∷ y ∷ ys) (first_loop c) in
      let begun = passes-append c xs ((b, other) ∷ []) (first_loop c) in
      let z = finish_run c s in
      (
        z,
        run_backtest-append c xs (b, signal) (y ∷ ys),
        (
          subst (λ l. Extends l.equity_rows z.equity_rows) (sym begun)
              (settle_end-equity now.equity_rows _ more s.position s.previous s
                (ap (λ l. l.equity_rows) whole ∙ e ∙ append_assoc now.equity_rows (_ ∷ []) more)),
          subst (λ l. Extends l.trades z.trades) (sym begun)
              (Extends-trans now.trades s.trades z.trades
                (subst (λ l. Extends now.trades l.trades) (sym whole)
                  (passes-Extends c (y ∷ ys) now))
                (settle_end-Extends c s.position s.previous s)),
        ),
      )

  -- Two runs over the same bars and signals up to a bar, with any signals on this bar and any bars and
  -- signals after it, begin with the same rows of equity, one for each bar up to this one, and the
  -- same trades, bit for bit: those of the loop over the bars up to this one.
  pub no_look_ahead :
      (xs : List (Bar F × Signal)) (b : Bar F) (signal signal' : Signal) (y y' : Bar F × Signal)
      (ys ys' : List (Bar F × Signal))
      → (let past = passes c (xs ++ (b, signal) ∷ []) (first_loop c) in
          (z : Loop F) × (z' : Loop F) × (run_backtest c (xs ++ (b, signal) ∷ y ∷ ys) ≡ some z)
          × (run_backtest c (xs ++ (b, signal') ∷ y' ∷ ys') ≡ some z')
          × (length past.equity_rows ≡ suc (length xs))
          × Begins past z
          × Begins past z')
  no_look_ahead xs b signal signal' y y' ys ys' =
      let (z, runs, same) = run-Extends xs b signal signal y ys in
      let (z', runs', same') = run-Extends xs b signal' signal y' ys' in
      (
        z,
        z',
        runs,
        runs',
        omega (
          arith,
          passes-length c (xs ++ (b, signal) ∷ []) (first_loop c),
          length-append xs ((b, signal) ∷ []),
        ),
        same,
        same',
      )
