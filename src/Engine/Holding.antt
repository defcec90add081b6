-- ===== src/Engine/Holding.antt =====
-- How long the backtester holds a position.
use xauusd.Prelude.{
  ℕ, suc, ◌+◌, ◌-◌, ◌≤◌, ◌<◌, ◌≡◌, refl, sym, ◌∙◌, false, if◌then◌else◌, Option, none, some, List,
  [], ◌∷◌, ◌++◌, arith, Bool-cases, inl, inr, ltb, ◌&&◌, All, subst,
}
use xauusd.Prelude.Int.{pos, leb_ℤ, eqb_ℤ}
use xauusd.Number.{Number}
use xauusd.Engine.Config.{ExecutionConfig, is_stop_first}
use xauusd.Engine.Run.{
  Bar, Signal, Position, Trade, Loop, ExitReason, wants, crossed_gap, finance, desired, leave,
  enter, exit_at, is_over_time, stop_hit, target_hit, close_if, protect, trade_bar, pass, passes,
  first_loop, settle_end, finish_run, run_backtest,
}

-- The trade was held for at least one bar, and for no more than `m`.
abbrev pub IsHeld : {F : Type 0} → ℕ → Trade F → Type 0
IsHeld m t = (1 ≤ t.bars_held) × (t.bars_held ≤ m)

-- The position was opened at or before the bar `i`, less than `m` bars ago.
abbrev IsYoung : {F : Type 0} → ℕ → ℕ → Option (Position F) → Type 0
IsYoung m i none = Unit
IsYoung m i (some p) = (p.entry_i ≤ i) × (i - p.entry_i < m)

-- The same, but opened before the bar `i`.
abbrev IsOlder : {F : Type 0} → ℕ → ℕ → Option (Position F) → Type 0
IsOlder m i none = Unit
IsOlder m i (some p) = (p.entry_i < i) × (i - p.entry_i < m)

All-snoc :
    {A : Type 0} (P : A → Type 0) (xs : List A) (x : A) → All P xs → P x → All P (xs ++ x ∷ [])
All-snoc P [] x h p = (p, tt)
All-snoc P (y ∷ ys) x h p = (h.0, All-snoc P ys x h.1 p)

module _ {F : Type 0} ⦃n : Number F⦄ (c : ExecutionConfig F) (m : ℕ) where
  abbrev AllHeld : Loop F → Type 0
  AllHeld s = All (IsHeld m) s.trades

  abbrev Older : Loop F → Type 0
  Older s = IsOlder m s.i s.position × AllHeld s

  abbrev Young : Loop F → Type 0
  Young s = IsYoung m s.i s.position × AllHeld s

  finance-Older :
      (o : Option (Position F)) (bar : Bar F) (s : Loop F)
      → IsOlder m s.i o
      → s.position ≡ o
      → AllHeld s
      → Older (finance c o bar s)
  finance-Older none bar s h e a = (subst (IsOlder m s.i) (sym e) h, a)
  finance-Older (some p) bar s h e a =
      elim (Bool-cases (ltb p.entry_i s.i && crossed_gap c s.previous bar)) [
        | inl charged ↦ rw (charged) (subst (IsOlder m s.i) (sym e) h, a)
        | inr free ↦ rw (free) (subst (IsOlder m s.i) (sym e) h, a)
      ]

  leave-Older :
      (o : Option (Position F)) (bar : Bar F) (s : Loop F)
      → s.position ≡ o
      → Older s
      → Older (leave c o bar s)
  leave-Older none bar s e h = h
  leave-Older (some p) bar s e h = elim (Bool-cases (wants (desired c s) p.side)) [
    | inl kept ↦ rw (kept) h
    | inr left ↦
        let (before, short) = subst (IsOlder m s.i) e h.0 in
        rw (left)
          (tt, All-snoc (IsHeld m) s.trades _ h.1 (omega (arith, before), omega (arith, short)))
  ]

  enter-Young :
      0 < m
      → (o : Option (Position F)) (wanted : Signal) (bar : Bar F) (s : Loop F) → s.position ≡ o
      → Older s
      → Young (enter c o wanted bar s)
  enter-Young positive none Signal.flat bar s e h = (subst (IsYoung m s.i) (sym e) tt, h.1)
  enter-Young positive none (Signal.toward side) bar s e h =
      ((omega arith, omega (arith, positive)), h.1)
  enter-Young positive (some p) wanted bar s e h =
      let (before, short) = subst (IsOlder m s.i) e h.0 in
      (subst (IsYoung m s.i) (sym e) (omega (arith, before), short), h.1)

  exit_at-none :
      (stop target : Option F) (bar : Bar F) (held : ℕ)
      → exit_at c stop target bar held ≡ none
      → is_over_time c held ≡ false
  exit_at-none (some stop) (some target) bar held e =
      elim (Bool-cases (is_stop_first c.intrabar_priority)) [
        | inl first ↦ absurd (ground (arith, e, first))
        | inr last ↦ absurd (ground (arith, e, last))
      ]
  exit_at-none (some stop) none bar held e = absurd (ground (arith, e))
  exit_at-none none (some target) bar held e = absurd (ground (arith, e))
  exit_at-none none none bar held e = elim (Bool-cases (is_over_time c held)) [
    | inl over ↦ absurd (ground (arith, e, over))
    | inr on_time ↦ on_time
  ]

  on_time_lem :
      (held : ℕ)
      → 0 < m
      → c.max_holding_bars ≡ some (pos m)
      → is_over_time c held ≡ false
      → held < m
  on_time_lem held positive limit on_time =
      let known : (if eqb_ℤ (pos m) (pos 0) then false else leb_ℤ (pos m) (pos held)) ≡ false =
        sym (rw (limit) refl) ∙ on_time in
      ground (arith, known, positive)

  close_if-Older :
      (exit : Option (F × ExitReason)) (p : Position F) (bar : Bar F) (s : Loop F)
      → s.position ≡ some p
      → Young s
      → (exit ≡ none → s.i - p.entry_i + 1 < m)
      → (let z = close_if c exit p bar (s.i - p.entry_i + 1) s in
          IsOlder m (suc s.i) z.position × AllHeld z)
  close_if-Older none p bar s e h stays =
      let (before, short) = subst (IsYoung m s.i) e h.0 in
      let on_time = stays refl in
      (
        subst (IsOlder m (suc s.i)) (sym e) (omega (arith, before), omega (arith, before, on_time)),
        h.1,
      )
  close_if-Older (some (mid, reason)) p bar s e h stays =
      let (before, short) = subst (IsYoung m s.i) e h.0 in
      (tt, All-snoc (IsHeld m) s.trades _ h.1 (omega arith, omega (arith, short)))

  module _ (positive : 0 < m) (limit : c.max_holding_bars ≡ some (pos m)) where
    protect-Older :
        (o : Option (Position F)) (bar : Bar F) (s : Loop F)
        → s.position ≡ o
        → Young s
        → (let z = protect c o bar s in IsOlder m (suc s.i) z.position × AllHeld z)
    protect-Older none bar s e h = (subst (IsOlder m (suc s.i)) (sym e) tt, h.1)
    protect-Older (some p) bar s e h = close_if-Older _ p bar s e h (λ none_left.
        on_time_lem (s.i - p.entry_i + 1) positive limit (
          exit_at-none (stop_hit c p bar) (target_hit c p bar) bar (s.i - p.entry_i + 1) none_left))

    finance-i : (o : Option (Position F)) (bar : Bar F) (s : Loop F) → (finance c o bar s).i ≡ s.i
    finance-i none bar s = refl
    finance-i (some p) bar s =
        elim (Bool-cases (ltb p.entry_i s.i && crossed_gap c s.previous bar)) [
          | inl charged ↦ rw (charged) refl
          | inr free ↦ rw (free) refl
        ]

    leave-i : (o : Option (Position F)) (bar : Bar F) (s : Loop F) → (leave c o bar s).i ≡ s.i
    leave-i none bar s = refl
    leave-i (some p) bar s = elim (Bool-cases (wants (desired c s) p.side)) [
      | inl kept ↦ rw (kept) refl
      | inr left ↦ rw (left) refl
    ]

    enter-i :
        (o : Option (Position F)) (wanted : Signal) (bar : Bar F) (s : Loop F)
        → (enter c o wanted bar s).i ≡ s.i
    enter-i (some p) wanted bar s = refl
    enter-i none Signal.flat bar s = refl
    enter-i none (Signal.toward side) bar s = refl

    trade_bar-Older :
        (bar : Bar F) (s : Loop F)
        → Older s
        → (let z = trade_bar c bar s in IsOlder m (suc s.i) z.position × AllHeld z)
    trade_bar-Older bar s h =
        let financed = finance c s.position bar s in
        let left = leave c financed.position bar financed in
        let entered = enter c left.position (desired c left) bar left in
        let same : entered.i ≡ s.i =
          enter-i left.position (desired c left) bar left
          ∙ leave-i financed.position bar financed
          ∙ finance-i s.position bar s in
        let z = protect c entered.position bar entered in
        subst (λ i. IsOlder m (suc i) z.position × AllHeld z) same
          (protect-Older entered.position bar entered refl (
            enter-Young positive left.position (desired c left) bar left refl (
              leave-Older financed.position bar financed refl
                (finance-Older s.position bar s h.0 refl h.1))))

    passes-Older : (rows : List (Bar F × Signal)) (s : Loop F) → Older s → Older (passes c rows s)
    unfolding passes pass
    passes-Older [] s h = h
    passes-Older ((bar, signal) ∷ rows) s h =
        passes-Older rows (pass c (bar, signal) s) (trade_bar-Older bar s h)

    settle_end-AllHeld :
        (o : Option (Position F)) (last : Option (Bar F × Signal)) (s : Loop F)
        → IsOlder m s.i o
        → AllHeld s
        → AllHeld (settle_end c o last s)
    settle_end-AllHeld none last s h a = a
    settle_end-AllHeld (some p) none s h a = a
    settle_end-AllHeld (some p) (some (bar, signal)) s (before, short) a =
        All-snoc (IsHeld m) s.trades _ a (omega (arith, before), omega (arith, short))

    -- With a positive `max_holding_bars`, a run over any bars and signals holds every position for at
    -- least one bar and for no more bars than that.
    pub run-IsHeld :
        (row : Bar F × Signal) (rows : List (Bar F × Signal))
        → (z : Loop F) × (run_backtest c (row ∷ rows) ≡ some z) × All (IsHeld m) z.trades
    unfolding run_backtest
    run-IsHeld row rows =
        let s = passes c (row ∷ rows) (first_loop c) in
        let h = passes-Older (row ∷ rows) (first_loop c) (tt, tt) in
        (finish_run c s, refl, settle_end-AllHeld s.position s.previous s h.0 h.1)
