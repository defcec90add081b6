-- ===== src/Engine/Stops.antt =====
-- What happens in a bar that touches the stop.
use xauusd.Prelude.{
  ℕ, ◌+◌, ◌-◌, ◌≡◌, refl, ap, sym, subst, ◌∙◌, ◌⊎◌, inl, inr, Bool, true, false, Option, none, some,
  ◌&&◌, [], ◌∷◌, ◌++◌, arith,
}
use xauusd.Number.{Number, of_ℕ, add, sub, mul, div, neg, le}
use xauusd.Engine.Config.{
  ExecutionConfig, is_valid_config, has_size, has_costs, has_financing, has_gap, is_stop_first,
  commission,
}
use xauusd.Engine.Run.{
  Bar, Side, Position, Trade, Loop, ExitReason, opposite, times, fill_price, close, exit_at,
  stop_hit, target_hit, close_if, protect,
}

last_of_five : (p q r s t : Bool) → (p && (q && (r && (s && t)))) ≡ true → t ≡ true
last_of_five true true true true t h = h
last_of_five true true true false t h = cc
last_of_five true true false s t h = cc
last_of_five true false r s t h = cc
last_of_five false q r s t h = cc

-- A side's sign.
abbrev pub sign : {F : Type 0} ⦃n : Number F⦄ → Side → F
sign Side.long = of_ℕ 1
sign Side.short = neg (of_ℕ 1)

-- Whether the bar reaches a level from above, for a purchase, or from below, for a sale.
abbrev pub reaches : {F : Type 0} ⦃n : Number F⦄ → Side → F → Bar F → Bool
reaches Side.long level bar = le bar.low level
reaches Side.short level bar = le level bar.high

Side-cases : (side : Side) → (side ≡ Side.long) ⊎ (side ≡ Side.short)
Side-cases Side.long = inl refl
Side-cases Side.short = inr refl

module _ {F : Type 0} ⦃n : Number F⦄ where
  times-sign : (side : Side) (x : F) → times side x ≡ mul (sign side) x
  times-sign Side.long x = refl
  times-sign Side.short x = refl

module _ {F : Type 0} ⦃n : Number F⦄ (c : ExecutionConfig F) where
  -- The level of a stop at this distance, the price at which the position leaves there, and what that
  -- brings.
  abbrev pub stop_level : Position F → F → F
  stop_level p d = sub p.entry_price (mul (sign p.side) d)

  abbrev pub stop_price : Position F → F → F
  stop_price p d =
      add (stop_level p d) (mul (sign (opposite p.side)) (add (div c.spread (of_ℕ 2)) c.slippage))

  abbrev pub stop_gross : Position F → F → F
  stop_gross p d = mul (mul (sign p.side) (sub (stop_price p d) p.entry_price)) c.quantity_oz

  -- That a position left at its stop: it is closed, one trade is added, and the cash changes by what
  -- the trade brings less the commission.
  pub record IsStopped (p : Position F) (d : F) (bar : Bar F) (s s' : Loop F) : Type 0 where
    pub trade : Trade F
    pub is_flat : s'.position ≡ none
    pub is_added : s'.trades ≡ s.trades ++ trade ∷ []
    pub reason : trade.exit_reason ≡ ExitReason.stop_exit
    pub same_side : trade.side ≡ p.side
    pub same_entry : trade.entry_price ≡ p.entry_price
    pub time : trade.exit_time ≡ bar.timestamp
    pub held : trade.bars_held ≡ s.i - p.entry_i + 1
    pub price : trade.exit_price ≡ stop_price p d
    pub net : trade.net_pnl ≡ sub (stop_gross p d) (add p.entry_commission (commission c))
    pub cash : s'.cash ≡ add s.cash (sub (stop_gross p d) (commission c))

  valid_stop_first : is_valid_config c ≡ true → is_stop_first c.intrabar_priority ≡ true
  valid_stop_first h =
      last_of_five (has_size c) (has_costs c) (has_financing c) (has_gap c)
        (is_stop_first c.intrabar_priority) h

  exit_at-stop :
      (stop : F) (target : Option F) (bar : Bar F) (held : ℕ)
      → is_stop_first c.intrabar_priority ≡ true
      → exit_at c (some stop) target bar held ≡ some (stop, ExitReason.stop_exit)
  exit_at-stop stop none bar held h = refl
  exit_at-stop stop (some target) bar held h = rw (h) refl

  stop_hit-reaches :
      (p : Position F) (bar : Bar F) (d : F)
      → c.stop_distance ≡ some d
      → reaches p.side (stop_level p d) bar ≡ true
      → stop_hit c p bar ≡ some (stop_level p d)
  stop_hit-reaches p bar d far touched = elim (Side-cases p.side) [
    | inl is_long ↦ ground (arith, far, touched, is_long)
    | inr is_short ↦ ground (arith, far, touched, is_short)
  ]

  close-IsStopped :
      (p : Position F) (bar : Bar F) (d : F) (s : Loop F)
      → IsStopped p d bar s
          (close c p bar.timestamp (stop_level p d) ExitReason.stop_exit (s.i - p.entry_i + 1) s)
  close-IsStopped p bar d s =
      let price : fill_price c (stop_level p d) p.side false ≡ stop_price p d =
        ap (add (stop_level p d)) (times-sign (opposite p.side) _) in
      let gross =
        ap (λ x. mul x c.quantity_oz)
          (times-sign p.side (sub (fill_price c (stop_level p d) p.side false) p.entry_price)
            ∙ ap (λ x. mul (sign p.side) (sub x p.entry_price)) price) in
      record {
        trade = _;
        is_flat = refl;
        is_added = refl;
        reason = refl;
        same_side = refl;
        same_entry = refl;
        time = refl;
        held = refl;
        price = price;
        net = ap (λ x. sub x (add p.entry_commission (commission c))) gross;
        cash = ap (λ x. add s.cash (sub x (commission c))) gross;
      }

  -- With settings that the validation accepts and a stop distance, a position whose stop the bar
  -- reaches (its low for a purchase, its high for a sale) is closed, whether or not the bar reaches its
  -- target too or its time is over: one trade is added, for the reason of the stop, at the stop's level
  -- worsened by half the spread and the slippage, and the cash changes by the trade's gross gain less
  -- the commission.
  pub protect-IsStopped :
      (p : Position F) (bar : Bar F) (d : F) (s : Loop F)
      → is_valid_config c ≡ true
      → c.stop_distance ≡ some d
      → reaches p.side (stop_level p d) bar ≡ true
      → IsStopped p d bar s (protect c (some p) bar s)
  protect-IsStopped p bar d s valid far touched =
      let held = s.i - p.entry_i + 1 in
      let stop = stop_level p d in
      let leaves : protect c (some p) bar s
          ≡ close c p bar.timestamp stop ExitReason.stop_exit held s =
        ap (λ hit. close_if c (exit_at c hit (target_hit c p bar) bar held) p bar held s)
          (stop_hit-reaches p bar d far touched)
        ∙ ap (λ e. close_if c e p bar held s)
            (exit_at-stop stop (target_hit c p bar) bar held (valid_stop_first valid)) in
      subst (IsStopped p d bar s) (sym leaves) (close-IsStopped p bar d s)
