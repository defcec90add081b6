-- ===== src/Paper/Marks.antt =====
-- Marking an account: the day's opening equity, the high water mark and the monitor's risk stop.
use text.Mathlib.TextEquality.{eq_iff}
use xauusd.Prelude.{ℕ, String, ◌≡◌, ◌≢◌, ◌∙◌, true, false, some, arith, Option-cases, inl, inr}
use xauusd.Number.{Number, IsOrdered, of_ℕ, le, add, mul, finite}
use xauusd.Session.{iso_date, day_of}
use xauusd.Paper.State.{PaperState}
use xauusd.Paper.Account.{mark, equity, same_day}

other_day : (e d : String) → e ≢ d → same_day (some e) d ≡ false
other_day e d h = ground (arith, eq_iff e d, h)

module _ {F : Type 0} ⦃n : Number F⦄ where
  -- The day of a marked state is the day of the mark.
  mark-day :
      (s : PaperState F) (price : F) (now : ℕ)
      → (mark s price now).day ≡ some (iso_date (day_of now))
  unfolding mark
  mark-day s price now = elim (Option-cases s.day) [
    | inl never ↦ ground arith
    | inr (e, on) ↦ ground (arith, eq_iff e (iso_date (day_of now)))
  ]

  mark_new_day :
      (s : PaperState F) (price : F) (now : ℕ)
      → same_day s.day (iso_date (day_of now)) ≡ false
      → let t = mark s price now in
        (t.day_start_equity ≡ equity s) × (t.trades_today ≡ of_ℕ 0) × (t.mark_price ≡ price)
  unfolding mark
  mark_new_day s price now other = ground arith

  equity-mark :
      (s : PaperState F) (price : F) (now : ℕ)
      → equity (mark s price now) ≡ add s.cash (mul s.position price)
  unfolding mark
  equity-mark s price now = ground arith

  -- A mark on another day than the one before it opens the day at the equity of the earlier price:
  -- the move between the two is part of the new day's result, and the day's trades start at zero.
  pub mark_overnight :
      (s : PaperState F) (close open_price : F) (evening morning : ℕ)
      → iso_date (day_of evening) ≢ iso_date (day_of morning)
      → let t = mark (mark s close evening) open_price morning in
        (t.day_start_equity ≡ add s.cash (mul s.position close))
        × (t.trades_today ≡ of_ℕ 0)
        × (t.day ≡ some (iso_date (day_of morning)))
        × (t.mark_price ≡ open_price)
  mark_overnight s close open_price evening morning other =
      let t = mark s close evening in
      let (opened, none_yet, priced) = mark_new_day t open_price morning (
        rw (mark-day s close evening)
          (other_day (iso_date (day_of evening)) (iso_date (day_of morning)) other)) in
      (opened ∙ equity-mark s close evening, none_yet, mark-day t open_price morning, priced)

  -- A second mark on the same day leaves the day's opening equity and its trades alone.
  mark_same_day :
      (s : PaperState F) (first second : F) (at later : ℕ)
      → iso_date (day_of at) ≡ iso_date (day_of later)
      → let t = mark s first at in
        let u = mark t second later in
        (u.day_start_equity ≡ t.day_start_equity)
        × (u.trades_today ≡ t.trades_today)
        × (u.day ≡ t.day)
  unfolding mark
  mark_same_day s first second at later same =
      ground (arith, eq_iff (iso_date (day_of at)) (iso_date (day_of later)), same)

  module _ (laws : IsOrdered n) where
    -- Marking again at the same price and time changes nothing.
    mark_twice :
        (s : PaperState F) (price : F) (now : ℕ)
        → mark (mark s price now) price now ≡ mark s price now
    unfolding mark
    mark_twice s price now = ground (
      arith,
      eq_iff (iso_date (day_of now)) (iso_date (day_of now)),
      laws.lt_irrefl (equity (record s { mark_price = price })),
    )

    -- After a mark the high water mark is at least the equity and at least what it was, if the two
    -- are finite.
    mark_high_water :
        (s : PaperState F) (price : F) (now : ℕ)
        → finite s.high_water_equity ≡ true
        → finite (equity (mark s price now)) ≡ true
        → let t = mark s price now in
          (le (equity t) t.high_water_equity ≡ true)
          × (le s.high_water_equity t.high_water_equity ≡ true)
    unfolding mark
    mark_high_water s price now h k = ground (
      arith,
      laws.le_refl (equity (record s { mark_price = price })),
      laws.le_refl s.high_water_equity,
      laws.le_of_lt s.high_water_equity (equity (record s { mark_price = price })),
      laws.le_of_not_lt s.high_water_equity (equity (record s { mark_price = price })),
    )
