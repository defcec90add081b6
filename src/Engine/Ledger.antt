-- ===== src/Engine/Ledger.antt =====
-- That the trades of a run account for its cash, and how a run ends.
use xauusd.Prelude.{
  ℕ, ◌≡◌, refl, sym, ap, ◌∙◌, false, Option, none, some, List, [], ◌∷◌, ◌++◌, arith, Bool-cases,
  inl, inr, ltb, subst,
}
use xauusd.Number.{Number, add, sub}
use xauusd.Engine.Config.{ExecutionConfig, commission}
use xauusd.Engine.Run.{
  Bar, Signal, Position, Trade, Loop, ExitReason, wants, close, crossed_gap, finance, desired,
  leave, enter, close_if, protect, trade_bar, pass, passes, first_loop, set_last, settle_end,
  finish_run, run_backtest,
}
use xauusd.Engine.Rows.{set_last-append}

module _ {F : Type 0} ⦃n : Number F⦄ (c : ExecutionConfig F) where
  -- The cash after one trade: the commission of its entry is paid, then its gross result less the
  -- commission of its exit is booked.
  abbrev pub cash_after : F → Trade F → F
  cash_after cash t = add (sub cash (commission c)) (sub t.gross_pnl (commission c))

  -- The cash after the trades, in their order.
  abbrev pub replay : F → List (Trade F) → F
  replay cash [] = cash
  replay cash (t ∷ ts) = replay (cash_after cash t) ts

  replay-append :
      (cash : F) (ts : List (Trade F)) (t : Trade F)
      → replay cash (ts ++ t ∷ []) ≡ cash_after (replay cash ts) t
  replay-append cash [] t = refl
  replay-append cash (x ∷ xs) t = replay-append (cash_after cash x) xs t

  -- No bar comes later after the one before than the session gap.
  abbrev pub IsGapFree : Option (Bar F × Signal) → List (Bar F × Signal) → Type 0
  IsGapFree previous [] = Unit
  IsGapFree previous (row ∷ rows) =
      (crossed_gap c previous row.0 ≡ false) × IsGapFree (some row) rows

  -- The cash is that of the trades, less the commission of an open position.
  abbrev open_cash : Option (Position F) → F → F
  open_cash none cash = cash
  open_cash (some p) cash = sub cash (commission c)

  abbrev Booked : Option (Position F) → Loop F → Type 0
  Booked o s = s.cash ≡ open_cash o (replay c.initial_cash s.trades)

  finance-free :
      (o : Option (Position F)) (bar : Bar F) (s : Loop F)
      → crossed_gap c s.previous bar ≡ false
      → finance c o bar s ≡ s
  finance-free none bar s free = refl
  finance-free (some p) bar s free = elim (Bool-cases (ltb p.entry_i s.i)) [
    | inl later ↦ rw (later, free) refl
    | inr now ↦ rw (now) refl
  ]

  -- A close books its trade.
  close-Booked :
      (p : Position F) (timestamp : ℕ) (mid : F) (reason : ExitReason) (held : ℕ) (s : Loop F)
      → Booked (some p) s
      → Booked none (close c p timestamp mid reason held s)
  close-Booked p timestamp mid reason held s h =
      rw (h) (sym (replay-append c.initial_cash s.trades _))

  leave-Booked :
      (o : Option (Position F)) (bar : Bar F) (s : Loop F)
      → s.position ≡ o
      → Booked o s
      → (let z = leave c o bar s in Booked z.position z)
  leave-Booked none bar s e h = subst (λ q. Booked q s) (sym e) h
  leave-Booked (some p) bar s e h = elim (Bool-cases (wants (desired c s) p.side)) [
    | inl kept ↦ rw (kept) (subst (λ q. Booked q s) (sym e) h)
    | inr left ↦ rw (left) (close-Booked p _ _ _ _ s h)
  ]

  enter-Booked :
      (o : Option (Position F)) (wanted : Signal) (bar : Bar F) (s : Loop F)
      → s.position ≡ o
      → Booked o s
      → (let z = enter c o wanted bar s in Booked z.position z)
  enter-Booked none Signal.flat bar s e h = subst (λ q. Booked q s) (sym e) h
  enter-Booked none (Signal.toward side) bar s e h = ap (λ x. sub x (commission c)) h
  enter-Booked (some p) wanted bar s e h = subst (λ q. Booked q s) (sym e) h

  close_if-Booked :
      (exit : Option (F × ExitReason)) (p : Position F) (bar : Bar F) (held : ℕ) (s : Loop F)
      → s.position ≡ some p
      → Booked (some p) s
      → (let z = close_if c exit p bar held s in Booked z.position z)
  close_if-Booked none p bar held s e h = subst (λ q. Booked q s) (sym e) h
  close_if-Booked (some (mid, reason)) p bar held s e h = close-Booked p _ _ _ _ s h

  protect-Booked :
      (o : Option (Position F)) (bar : Bar F) (s : Loop F)
      → s.position ≡ o
      → Booked o s
      → (let z = protect c o bar s in Booked z.position z)
  protect-Booked none bar s e h = subst (λ q. Booked q s) (sym e) h
  protect-Booked (some p) bar s e h = close_if-Booked _ p bar _ s e h

  trade_bar-Booked :
      (bar : Bar F) (s : Loop F)
      → crossed_gap c s.previous bar ≡ false
      → Booked s.position s
      → (let z = trade_bar c bar s in Booked z.position z)
  trade_bar-Booked bar s free h =
      let financed = finance c s.position bar s in
      let left = leave c financed.position bar financed in
      let entered = enter c left.position (desired c left) bar left in
      protect-Booked entered.position bar entered refl (
        enter-Booked left.position (desired c left) bar left refl (
          leave-Booked financed.position bar financed refl
            (subst (λ l. Booked l.position l) (sym (finance-free s.position bar s free)) h)))

  passes-Booked :
      (rows : List (Bar F × Signal)) (s : Loop F)
      → IsGapFree s.previous rows
      → Booked s.position s
      → (let z = passes c rows s in Booked z.position z)
  unfolding passes pass
  passes-Booked [] s free h = h
  passes-Booked ((bar, signal) ∷ rows) s free h =
      passes-Booked rows (pass c (bar, signal) s) free.1 (trade_bar-Booked bar s free.0 h)

  -- The last row of equity is the cash, if nothing is open, and the bar before is known.
  abbrev HasLast : Loop F → Type 0
  HasLast s =
      (es : List (ℕ × F)) × (timestamp : ℕ) × (value : F) × (before : Bar F × Signal)
      × (s.equity_rows ≡ es ++ (timestamp, value) ∷ [])
      × (s.position ≡ none → value ≡ s.cash)
      × (s.previous ≡ some before)

  pass-HasLast : (row : Bar F × Signal) (s : Loop F) → HasLast (pass c row s)
  unfolding pass
  pass-HasLast (bar, signal) s =
      (s.equity_rows, bar.timestamp, _, (bar, signal), refl, (λ e. rw (e) refl), refl)

  passes-HasLast :
      (rows : List (Bar F × Signal)) (s : Loop F) → HasLast s → HasLast (passes c rows s)
  unfolding passes
  passes-HasLast [] s h = h
  passes-HasLast (row ∷ rows) s h = passes-HasLast rows (pass c row s) (pass-HasLast row s)

  -- How a run ends: flat, with the cash of its trades as the last equity.
  abbrev pub IsReconciled : Loop F → Type 0
  IsReconciled z =
      (z.position ≡ none)
      × (z.cash ≡ replay c.initial_cash z.trades)
      × ((es : List (ℕ × F)) × (timestamp : ℕ) × (z.equity_rows ≡ es ++ (timestamp, z.cash) ∷ []))

  settle_end-IsReconciled :
      (o : Option (Position F)) (last : Option (Bar F × Signal)) (s : Loop F)
      → s.position ≡ o
      → s.previous ≡ last
      → Booked o s
      → HasLast s
      → IsReconciled (settle_end c o last s)
  settle_end-IsReconciled none last s e k h
        (es, timestamp, value, before, rows, flat_value, known) =
      (e, h, (es, timestamp, rows ∙ ap (λ v. es ++ (timestamp, v) ∷ []) (flat_value e)))
  settle_end-IsReconciled (some p) none s e k h
        (es, timestamp, value, before, rows, flat_value, known) =
      absurd (ground (arith, sym k ∙ known))
  settle_end-IsReconciled (some p) (some (bar, signal)) s e k h
        (es, timestamp, value, before, rows, flat_value, known) =
      let z = settle_end c (some p) (some (bar, signal)) s in
      let row : ℕ × F = (bar.timestamp, z.cash) in
      (
        refl,
        close-Booked p _ _ _ _ s h,
        (
          es,
          bar.timestamp,
          ap (λ l. set_last c l row) rows ∙ set_last-append c es (timestamp, value) [] row,
        ),
      )

  -- A run over one bar or more, of which none comes later after the one before than the session gap,
  -- ends with no open position. Its cash is, bit for bit, the initial cash after its trades in their
  -- order, each with its two commissions, and its last equity is this cash.
  pub run-IsReconciled :
      (row : Bar F × Signal) (rows : List (Bar F × Signal))
      → IsGapFree none (row ∷ rows)
      → (z : Loop F) × (run_backtest c (row ∷ rows) ≡ some z) × IsReconciled z
  unfolding run_backtest passes
  run-IsReconciled row rows free =
      let s = passes c (row ∷ rows) (first_loop c) in
      (
        finish_run c s,
        refl,
        settle_end-IsReconciled s.position s.previous s refl refl
            (passes-Booked (row ∷ rows) (first_loop c) free refl)
            (passes-HasLast rows (pass c row (first_loop c)) (pass-HasLast row (first_loop c))),
      )
