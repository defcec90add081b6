-- ===== src/Quotes/Saved.antt =====
-- What a recorded frame leaves in the snapshot and in the table, field by field.
use mathlib.Core.Option
use xauusd.Prelude.{ℕ, ◌*◌, ◌≤◌, ◌<◌, ◌≡◌, refl, Bool, Option, none, some, ◌⊎◌, ◌-◌, inl, inr}
use xauusd.Number.{Number, of_ℕ, div}
use xauusd.Quotes.Record.{
  Spot, Quote, QuoteStore, second_of, observed_of, quote_of, read_quote, record_spot,
}
use xauusd.Quotes.Rows.{row_at, row_after, save_quote-row_after}
use xauusd.Quotes.Accepted.{IsLater, Recorded, refused, recorded, record_spot-Recorded}
use xauusd.Quotes.History.{Rises}

module _ {F : Type 0} ⦃n : Number F⦄ (is_close : F → F → Bool) where
  -- What a recorded quote is, field by field, and what the store holds after it.
  pub record IsRecorded (spot : Spot) (symbol_id received : ℕ) (db : QuoteStore F) (q : Quote F)
      (db' : QuoteStore F) : Type 0 where
    pub bid : ℕ
    pub ask : ℕ
    pub is_of_symbol : spot.symbol_id ≡ some symbol_id
    pub has_bid : spot.bid ≡ some bid
    pub has_ask : spot.ask ≡ some ask
    pub is_positive : 0 < bid
    pub is_uncrossed : bid ≤ ask
    pub is_past : (t : ℕ) → spot.timestamp ≡ some t → t * 1000 ≤ received
    pub is_later :
        (p : Quote F)
        → read_quote is_close db.snapshot ≡ some p
        → IsLater is_close (observed_of spot.timestamp) received p
    pub bid_price : q.bid ≡ div (of_ℕ bid) (of_ℕ 100000)
    pub ask_price : q.ask ≡ div (of_ℕ ask) (of_ℕ 100000)
    pub spread : q.spread ≡ div (of_ℕ (ask - bid)) (of_ℕ 100000)
    pub observed : q.observed_at ≡ Option.map (λ t. t * 1000) spot.timestamp
    pub receipt : q.received_at ≡ received
    pub symbol : q.symbol ≡ "XAUUSD"
    pub source : q.source ≡ "ctrader_demo"
    pub snapshot : db'.snapshot ≡ some q
    pub rows : (k : ℕ) → row_at k db'.history ≡ row_after q (second_of received) db.history k

  observed_of-map : (o : Option ℕ) → observed_of o ≡ Option.map (λ t. t * 1000) o
  observed_of-map none = refl
  observed_of-map (some t) = refl

  abbrev pub IsRefusedOrRecorded :
      Spot → ℕ → ℕ → QuoteStore F → Option (Quote F) × QuoteStore F → Type 0
  IsRefusedOrRecorded spot symbol_id received db z =
      (z ≡ (none, db))
      ⊎ ((q : Quote F) × (z.0 ≡ some q) × IsRecorded spot symbol_id received db q z.1)

  Recorded-IsRecorded :
      (spot : Spot) (symbol_id received : ℕ) (db : QuoteStore F)
      (z : Option (Quote F) × QuoteStore F)
      → Recorded is_close spot symbol_id received db z
      → Rises 0 db.history
      → IsRefusedOrRecorded spot symbol_id received db z
  Recorded-IsRecorded spot symbol_id received db _ refused rises = inl refl
  Recorded-IsRecorded spot symbol_id received db _
        (recorded bid ask s b a positive uncrossed past later) rises =
      inr (
        quote_of is_close bid ask (observed_of spot.timestamp) received,
        refl,
        record {
          bid = bid;
          ask = ask;
          is_of_symbol = s;
          has_bid = b;
          has_ask = a;
          is_positive = positive;
          is_uncrossed = uncrossed;
          is_past = past;
          is_later = later;
          bid_price = refl;
          ask_price = refl;
          spread = refl;
          observed = observed_of-map spot.timestamp;
          receipt = refl;
          symbol = refl;
          source = refl;
          snapshot = refl;
          rows = λ k. save_quote-row_after is_close _ db k rises;
        },
      )

  -- With a history of strictly rising seconds, a frame is refused, and then nothing changes, or it is
  -- recorded. Then the frame is of the symbol, both its sides are positive with the bid not above the
  -- ask, its time is not after its receipt, it was received in a later second than the readable
  -- snapshot, and it is newer at its source where both times are known; the quote's bid, ask and spread are the frame's over
  -- 100000, with its times, and the quote is the new snapshot. In the history, the second of receipt
  -- keeps the row that it has or gets the quote if it has none, every other of the 604800 seconds up to
  -- it keeps its row, and no other second has one.
  pub record_spot-IsRecorded :
      (spot : Spot) (symbol_id received : ℕ) (db : QuoteStore F)
      → Rises 0 db.history
      → IsRefusedOrRecorded spot symbol_id received db
          (record_spot is_close spot symbol_id received db)
  record_spot-IsRecorded spot symbol_id received db rises =
      Recorded-IsRecorded spot symbol_id received db _
        (record_spot-Recorded is_close spot symbol_id received db) rises
