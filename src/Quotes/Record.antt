-- ===== src/Quotes/Record.antt =====
-- `record_spot` and `read_quote`. An instant is a number of microseconds since 1970-01-01 00:00 UTC; the
-- integers of a frame are natural numbers, as its wire format has them. The history is in the order
-- of its primary key. `is_close` is `math.isclose` with the tolerance of the source.
use text.Mathlib.Text.{◌==◌ as str_eq}
use xauusd.Prelude.{
  ℕ, String, ◌+◌, ◌-◌, ◌*◌, ◌/◌, Bool, false, not, ◌&&◌, ◌||◌, if◌then◌else◌, Option, none, some,
  List, [], ◌∷◌, ltb, leb, ◌==◌,
}
use xauusd.Number.{Number, of_ℕ, sub, div, le, lt, finite}

-- A frame of the broker; each field may be missing, a time is in milliseconds.
pub record Spot : Type 0 where
  pub symbol_id : Option ℕ
  pub bid : Option ℕ
  pub ask : Option ℕ
  pub timestamp : Option ℕ

pub record Quote (F : Type 0) : Type 0 where
  pub bid : F
  pub ask : F
  pub spread : F
  pub observed_at : Option ℕ
  pub received_at : ℕ
  pub symbol : String
  pub source : String

pub record HistoryRow (F : Type 0) : Type 0 where
  pub received_second : ℕ
  pub quote : Quote F

-- The snapshot file, absent or corrupt if there is none, and the table.
pub record QuoteStore (F : Type 0) : Type 0 where
  pub snapshot : Option (Quote F)
  pub history : List (HistoryRow F)

abbrev pub max_history_rows : ℕ
max_history_rows = 604800

abbrev pub retention_seconds : ℕ
retention_seconds = 7 * 86400

abbrev pub window : ℕ
window = if leb max_history_rows retention_seconds then max_history_rows else retention_seconds

-- `int(received.timestamp())`
abbrev pub second_of : ℕ → ℕ
second_of t = t / 1000000

-- The first instant that no `datetime` has.
abbrev pub year_10000 : ℕ
year_10000 = 253402300800000000

-- `INSERT OR IGNORE`
unfoldable pub insert_row : {F : Type 0} → HistoryRow F → List (HistoryRow F) → List (HistoryRow F)
insert_row x [] = x ∷ []
insert_row x (y ∷ ys) =
    let rest = insert_row x ys in
    if ltb x.received_second y.received_second
    then x ∷ y ∷ ys
    else if x.received_second == y.received_second
    then y ∷ ys
    else y ∷ rest

-- `DELETE ... WHERE received_second < ? OR received_second > ?`
unfoldable pub keep_window : {F : Type 0} → ℕ → ℕ → List (HistoryRow F) → List (HistoryRow F)
keep_window cutoff second [] = []
keep_window cutoff second (x ∷ xs) =
    let rest = keep_window cutoff second xs in
    if ltb x.received_second cutoff || ltb second x.received_second then rest else x ∷ rest

-- The cutoff may be below zero in the source; then no second is below it.
abbrev pub cutoff_of : ℕ → ℕ
cutoff_of second = second + 1 - window

-- Whether the time of a frame is refused: it is not positive, no `datetime`, or in the future.
abbrev pub is_refused_time : Option ℕ → ℕ → Bool
is_refused_time none received = false
is_refused_time (some timestamp) received =
    timestamp == 0 || (leb year_10000 (timestamp * 1000) || ltb received (timestamp * 1000))

abbrev pub observed_of : Option ℕ → Option ℕ
observed_of none = none
observed_of (some timestamp) = some (timestamp * 1000)

-- `observed <= prior_source`, where both are known.
abbrev pub is_not_after : Option ℕ → Option ℕ → Bool
is_not_after (some observed) (some prior) = leb observed prior
is_not_after (some observed) none = false
is_not_after none prior = false

module _ {F : Type 0} ⦃n : Number F⦄ (is_close : F → F → Bool) where
  -- What `read_quote` lets through.
  abbrev pub is_valid_quote : Quote F → Bool
  is_valid_quote q =
      str_eq q.symbol "XAUUSD"
      && (str_eq q.source "ctrader_demo"
          && (finite q.bid
              && (finite q.ask
                  && (finite q.spread
                      && (not (le q.bid (of_ℕ 0) || lt q.ask q.bid)
                          && is_close q.spread (sub q.ask q.bid))))))

  unfoldable pub read_quote : Option (Quote F) → Option (Quote F)
  read_quote none = none
  read_quote (some q) = if is_valid_quote q then some q else none

  abbrev pub quote_of : ℕ → ℕ → Option ℕ → ℕ → Quote F
  quote_of bid ask observed received = record {
    bid = div (of_ℕ bid) (of_ℕ 100000);
    ask = div (of_ℕ ask) (of_ℕ 100000);
    spread = div (of_ℕ (ask - bid)) (of_ℕ 100000);
    observed_at = observed;
    received_at = received;
    symbol = "XAUUSD";
    source = "ctrader_demo";
  }

  -- Whether the frame is not newer than the snapshot.
  abbrev pub is_outdated : Option ℕ → ℕ → Option (Quote F) → Bool
  is_outdated observed received none = false
  is_outdated observed received (some previous) =
      leb (second_of received) (second_of previous.received_at)
      || is_not_after observed previous.observed_at

  abbrev pub save_quote : Quote F → QuoteStore F → QuoteStore F
  save_quote quote db =
      let second = second_of quote.received_at in
      record {
        snapshot = some quote;
        history =
            keep_window (cutoff_of second) second
              (insert_row (record { received_second = second; quote = quote }) db.history);
      }

  -- The rest of `record_spot`, for a frame with both sides.
  unfoldable pub record_sides :
      ℕ → ℕ → Option ℕ → ℕ → QuoteStore F → Option (Quote F) × QuoteStore F
  record_sides bid ask timestamp received db =
      if not (ltb 0 bid && ltb 0 ask) || ltb ask bid
      then (none, db)
      else if is_refused_time timestamp received
      then (none, db)
      else if is_outdated (observed_of timestamp) received (read_quote db.snapshot)
      then (none, db)
      else (let quote = quote_of bid ask (observed_of timestamp) received in
          (some quote, save_quote quote db))

  -- A frame of another symbol, or of none, is refused.
  abbrev pub is_of_symbol : Option ℕ → ℕ → Bool
  is_of_symbol none symbol_id = false
  is_of_symbol (some id) symbol_id = id == symbol_id

  abbrev pub with_ask : ℕ → Option ℕ → Option ℕ → ℕ → QuoteStore F → Option (Quote F) × QuoteStore F
  with_ask bid none timestamp received db = (none, db)
  with_ask bid (some ask) timestamp received db = record_sides bid ask timestamp received db

  abbrev pub with_bid :
      Option ℕ → Option ℕ → Option ℕ → ℕ → QuoteStore F → Option (Quote F) × QuoteStore F
  with_bid none ask timestamp received db = (none, db)
  with_bid (some bid) ask timestamp received db = with_ask bid ask timestamp received db

  unfoldable pub record_spot : Spot → ℕ → ℕ → QuoteStore F → Option (Quote F) × QuoteStore F
  record_spot spot symbol_id received db =
      if not (is_of_symbol spot.symbol_id symbol_id)
      then (none, db)
      else with_bid spot.bid spot.ask spot.timestamp received db

  -- Frames one after another, each at its time of receipt.
  unfoldable pub record_spots : ℕ → List (Spot × ℕ) → QuoteStore F → QuoteStore F
  record_spots symbol_id [] db = db
  record_spots symbol_id ((spot, received) ∷ spots) db =
      record_spots symbol_id spots (record_spot spot symbol_id received db).1
