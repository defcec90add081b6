-- ===== src/Paper/Limits.antt =====
-- The limits that hold of the account at all times, and the divisions that never fail.
use xauusd.Prelude.{
  ℕ, String, ◌+◌, ◌≤◌, ◌≡◌, refl, sym, ap, ◌∙◌, Bool, true, false, ◌⊎◌, inl, inr, none, List, leb,
  arith, if◌then◌else◌,
}
use mathlib.Core.Path.{ap₂}
use xauusd.Number.{Number, IsOrdered, of_ℕ, lt, le, add, abs}
use xauusd.Paper.State.{PaperState, PaperDecision, Reply, returned, default_state}
use xauusd.Paper.Account.{Desk, mark, limits, booked, signed, equity}
use xauusd.Paper.Store.{empty_db}
use xauusd.Paper.Calls.{Call, calls, current}
use xauusd.Paper.Decided.{
  Decided, not_admitted, limited, filled, decide-Decided, Observed, observe-Observed, Observed-mark,
}
use xauusd.Paper.Replay.{mark-holding, fill_lem}
use xauusd.Paper.Gates.{limits_lem}
use xauusd.Paper.Invariants.{IsKept, calls_keep}

module _ {F : Type 0} ⦃n : Number F⦄ (laws : IsOrdered n) (desk : Desk F) (initial_cash : F)
    (most : ℕ) (counts : desk.config.max_trades_per_day ≡ of_ℕ most) where
  -- The exposure is within the limit, the day's trades are counted and within theirs, and the high
  -- water mark is positive.
  pub record IsWithin (s : PaperState F) : Type 0 where
    pub exposure : lt desk.config.max_position (abs s.position) ≡ false
    pub trades : ℕ
    pub counted : s.trades_today ≡ of_ℕ trades
    pub allowed : trades ≤ most
    pub solvent : lt (of_ℕ 0) s.high_water_equity ≡ true

  mark-high_water :
      (s : PaperState F) (price : F) (now : ℕ)
      → lt (of_ℕ 0) s.high_water_equity ≡ true
      → lt (of_ℕ 0) (mark s price now).high_water_equity ≡ true
  unfolding mark
  mark-high_water s price now h =
      ground (
        arith,
        laws.lt_trans (of_ℕ 0) s.high_water_equity (equity (record s { mark_price = price })),
      )

  mark-trades :
      (s : PaperState F) (price : F) (now : ℕ)
      → ((mark s price now).trades_today ≡ s.trades_today)
        ⊎ ((mark s price now).trades_today ≡ of_ℕ 0)
  unfolding mark
  mark-trades s price now = ground arith

  mark-IsWithin :
      (s : PaperState F) (price : F) (now : ℕ) → IsWithin s → IsWithin (mark s price now)
  mark-IsWithin s price now h =
      let exposed : lt desk.config.max_position (abs (mark s price now).position) ≡ false =
        cc ((mark-holding s price now).0) in
      elim (mark-trades s price now) [
        | inl same ↦ record {
          exposure = exposed;
          trades = h.trades;
          counted = same ∙ h.counted;
          allowed = h.allowed;
          solvent = mark-high_water s price now h.solvent;
        }
        | inr fresh ↦ record {
          exposure = exposed;
          trades = 0;
          counted = fresh;
          allowed = omega arith;
          solvent = mark-high_water s price now h.solvent;
        }
      ]

  booked-IsWithin :
      (s : PaperState F) (d : PaperDecision F) (now : ℕ) (average : F)
      → limits desk.config s (signed d.side d.quantity) ≡ returned none
      → IsWithin s
      → IsWithin (booked s d now average)
  booked-IsWithin s d now average within h =
      let (left, exposed) = limits_lem desk initial_cash s (signed d.side d.quantity) within in
      let below : leb most h.trades ≡ false =
        sym (laws.le-of_ℕ most h.trades) ∙ ap₂ le (sym counts) (sym h.counted) ∙ left in
      record {
        exposure = exposed;
        trades = h.trades + 1;
        counted = ap (λ t. add t (of_ℕ 1)) h.counted ∙ laws.add-of_ℕ h.trades 1;
        allowed = ground arith;
        solvent = h.solvent;
      }

  decide-IsWithin :
      (d : PaperDecision F) (now : ℕ) (reply : Reply F) (s s' : PaperState F)
      → Decided desk initial_cash d now s reply s'
      → IsWithin s
      → IsWithin s'
  decide-IsWithin d now reply s s' (not_admitted reason e same _) h = rw same h
  decide-IsWithin d now reply s s' (limited reason e within same _) h =
      rw same (mark-IsWithin s d.price now h)
  decide-IsWithin d now reply s s' (filled e within made _) h =
      let t = mark s d.price now in
      let (average, _, same) = fill_lem t s' d now made in
      rw same (
        mark-IsWithin (booked t d now average) d.price now
          (booked-IsWithin t d now average within (mark-IsWithin s d.price now h)))

  switch-IsWithin :
      (stopped : Bool) (reason : String) (s : PaperState F)
      → IsWithin s
      → IsWithin (record s { stopped = stopped; kill_switch_reason = reason })
  switch-IsWithin stopped reason s h = record {
    exposure = h.exposure;
    trades = h.trades;
    counted = h.counted;
    allowed = h.allowed;
    solvent = h.solvent;
  }

  if-IsWithin :
      (test : Bool) (s t : PaperState F)
      → IsWithin s
      → IsWithin t
      → IsWithin (if test then s else t)
  if-IsWithin true s t h k = h
  if-IsWithin false s t h k = k

  observe-IsWithin :
      (price : F) (now : ℕ) (reply : Reply F) (s s' : PaperState F)
      → Observed desk initial_cash price now s reply s'
      → IsWithin s
      → IsWithin s'
  observe-IsWithin price now reply s s' o h =
      let marked = mark-IsWithin s price now h in
      rw (Observed-mark desk initial_cash price now reply s s' o)
        (if-IsWithin _ _ _ (switch-IsWithin true "risk_limit" (mark s price now) marked) marked)

  IsWithin-kept : IsKept desk initial_cash IsWithin
  IsWithin-kept = record {
    decide_keeps = λ d now reply s s' h e.
        decide-IsWithin d now reply s s' (decide-Decided desk initial_cash d now reply s s' e) h;
    observe_keeps = λ price now reply s s' h e.
        observe-IsWithin price now reply s s'
          (observe-Observed desk initial_cash price now reply s s' e) h;
    switch_keeps = switch-IsWithin;
  }

  -- From an empty database with positive opening cash, after any calls in any order, the position is
  -- within the position limit, the day's trades are a count within the daily limit, and the high water
  -- mark is positive.
  pub limits_always_hold :
      lt desk.config.max_position (abs (of_ℕ 0)) ≡ false
      → lt (of_ℕ 0) initial_cash ≡ true
      → (cs : List (Call F)) → IsWithin (current initial_cash (calls desk initial_cash cs empty_db))
  limits_always_hold flat positive cs = calls_keep IsWithin-kept cs empty_db (
      unfold current default_state in
      (record {
        exposure = flat;
        trades = 0;
        counted = refl;
        allowed = omega arith;
        solvent = positive;
      }))
