-- ===== src/Quotes/Accepted.antt =====
-- Which frames are recorded.
use xauusd.Prelude.{
  ℕ, ◌*◌, ◌≤◌, ◌<◌, ◌≡◌, refl, sym, ap, Bool, true, false, not, ◌&&◌, ◌||◌, Option, none, some,
  List, [], ◌∷◌, arith, ltb, Bool-cases, Option-cases, inl, inr, subst,
}
use xauusd.Number.{Number}
use xauusd.Quotes.Record.{
  Spot, Quote, QuoteStore, second_of, is_refused_time, is_not_after, is_outdated, observed_of,
  quote_of, read_quote, save_quote, record_sides, is_of_symbol, with_ask, with_bid, record_spot,
  record_spots,
}
use xauusd.Quotes.History.{IsBounded, save_quote-IsBounded}

refused_time_lem :
    (timestamp : Option ℕ) (received t : ℕ)
    → is_refused_time timestamp received ≡ false
    → timestamp ≡ some t
    → t * 1000 ≤ received
refused_time_lem none received t h e = absurd (ground (arith, e))
refused_time_lem (some s) received t h e =
    let same : s ≡ t = ground (arith, e) in
    subst (λ u. u * 1000 ≤ received) same (ground (arith, h))

module _ {F : Type 0} ⦃n : Number F⦄ (is_close : F → F → Bool) where
  -- What a recorded frame is after: the snapshot's second of receipt, and its time at the source.
  abbrev pub IsLater : Option ℕ → ℕ → Quote F → Type 0
  IsLater observed received previous =
      (second_of previous.received_at < second_of received)
      × (is_not_after observed previous.observed_at ≡ false)

  pub data Recorded (spot : Spot) (symbol_id received : ℕ) (db : QuoteStore F)
      : Option (Quote F) × QuoteStore F → Type 0 where
    refused : Recorded spot symbol_id received db (none, db)
    recorded :
        (bid ask : ℕ)
        → spot.symbol_id ≡ some symbol_id
        → spot.bid ≡ some bid
        → spot.ask ≡ some ask
        → 0 < bid
        → bid ≤ ask
        → ((t : ℕ) → spot.timestamp ≡ some t → t * 1000 ≤ received)
        → ((p : Quote F)
            → read_quote is_close db.snapshot ≡ some p
            → IsLater (observed_of spot.timestamp) received p)
        → Recorded spot symbol_id received db (
          some (quote_of is_close bid ask (observed_of spot.timestamp) received),
          save_quote is_close (quote_of is_close bid ask (observed_of spot.timestamp) received) db,
        )

  outdated-IsLater :
      (observed : Option ℕ) (received : ℕ) (previous : Option (Quote F)) (p : Quote F)
      → is_outdated is_close observed received previous ≡ false
      → previous ≡ some p
      → IsLater observed received p
  outdated-IsLater observed received none p h e = absurd (ground (arith, e))
  outdated-IsLater observed received (some q) p h e =
      let same : q ≡ p = ground (arith, e) in
      subst (λ x. IsLater observed received x) same (ground (arith, h), ground (arith, h))

  record_sides-Recorded :
      (spot : Spot) (symbol_id received bid ask : ℕ) (db : QuoteStore F)
      → spot.symbol_id ≡ some symbol_id
      → spot.bid ≡ some bid
      → spot.ask ≡ some ask
      → Recorded spot symbol_id received db
          (record_sides is_close bid ask spot.timestamp received db)
  unfolding record_sides
  record_sides-Recorded spot symbol_id received bid ask db s b a =
      let previous = read_quote is_close db.snapshot in
      elim (Bool-cases (not (ltb 0 bid && ltb 0 ask) || ltb ask bid)) [
        | inl bad ↦ rw (record_sides, bad) refused
        | inr good ↦ elim (Bool-cases (is_refused_time spot.timestamp received)) [
          | inl timeless ↦ rw (record_sides, good, timeless) refused
          | inr timely ↦
              elim (Bool-cases
                (is_outdated is_close (observed_of spot.timestamp) received previous)) [
                  | inl old ↦ rw (record_sides, good, timely, old) refused
                  | inr new ↦
                      rw (record_sides, good, timely, new)
                        (recorded bid ask s b a (ground (arith, good)) (ground (arith, good))
                          (λ t e. refused_time_lem spot.timestamp received t timely e)
                          (λ p e.
                            outdated-IsLater (observed_of spot.timestamp) received previous p new
                              e))
                ]
        ]
      ]

  symbol_lem :
      (o : Option ℕ) (symbol_id : ℕ) → is_of_symbol is_close o symbol_id ≡ true → o ≡ some symbol_id
  symbol_lem none symbol_id h = cc
  symbol_lem (some id) symbol_id h = ap some (ground (arith, h))

  pub record_spot-Recorded :
      (spot : Spot) (symbol_id received : ℕ) (db : QuoteStore F)
      → Recorded spot symbol_id received db (record_spot is_close spot symbol_id received db)
  unfolding record_spot
  record_spot-Recorded spot symbol_id received db =
      elim (Bool-cases (is_of_symbol is_close spot.symbol_id symbol_id)) [
        | inr other ↦ rw (record_spot, other) refused
        | inl mine ↦
            rw (record_spot, mine) (with_bid-Recorded (symbol_lem spot.symbol_id symbol_id mine))
      ]
    where
      with_ask-Recorded :
          (bid : ℕ) (o : Option ℕ)
          → spot.symbol_id ≡ some symbol_id
          → spot.bid ≡ some bid
          → spot.ask ≡ o
          → Recorded spot symbol_id received db (with_ask is_close bid o spot.timestamp received db)
      with_ask-Recorded bid none s b a = refused
      with_ask-Recorded bid (some ask) s b a =
          record_sides-Recorded spot symbol_id received bid ask db s b a

      with_bid-Recorded :
          spot.symbol_id ≡ some symbol_id
          → Recorded spot symbol_id received db
              (with_bid is_close spot.bid spot.ask spot.timestamp received db)
      with_bid-Recorded s = elim (Option-cases spot.bid) [
        | inl nothing ↦ rw (nothing) refused
        | inr (bid, b) ↦
            subst
              (λ o.
                Recorded spot symbol_id received db
                  (with_bid is_close o spot.ask spot.timestamp received db))
              (sym b) (with_ask-Recorded bid spot.ask s b refl)
      ]

  Recorded-IsBounded :
      (spot : Spot) (symbol_id received : ℕ) (db : QuoteStore F)
      (z : Option (Quote F) × QuoteStore F)
      → Recorded spot symbol_id received db z
      → IsBounded db.history
      → IsBounded z.1.history
  Recorded-IsBounded spot symbol_id received db _ refused h = h
  Recorded-IsBounded spot symbol_id received db _
        (recorded bid ask s b a positive crossed timely later) h =
      save_quote-IsBounded is_close _ db h

  record_spots-keeps :
      (symbol_id : ℕ) (spots : List (Spot × ℕ)) (db : QuoteStore F)
      → IsBounded db.history
      → IsBounded (record_spots is_close symbol_id spots db).history
  unfolding record_spots
  record_spots-keeps symbol_id [] db h = h
  record_spots-keeps symbol_id ((spot, received) ∷ spots) db h =
      record_spots-keeps symbol_id spots (record_spot is_close spot symbol_id received db).1 (
        Recorded-IsBounded spot symbol_id received db _
          (record_spot-Recorded spot symbol_id received db) h)

  -- Whatever frames are received, at whatever times, so with a clock that goes back too, the history
  -- that began empty has strictly rising seconds and at most 604800 rows.
  pub record_spots-IsBounded :
      (symbol_id : ℕ) (spots : List (Spot × ℕ))
      → IsBounded
          (record_spots is_close symbol_id spots (record { snapshot = none; history = [] })).history
  record_spots-IsBounded symbol_id spots =
      record_spots-keeps symbol_id spots (record { snapshot = none; history = [] })
        (tt, omega arith)
