-- ===== src/Quotes/Examples.antt =====
-- Quotes recorded from concrete frames, and the theorems applied there.
use xauusd.Prelude.{ℕ, ◌≡◌, refl, Bool, true, none, some, List, [], ◌∷◌, map, arith}
use xauusd.Number.{Exact, exact}
use xauusd.Quotes.Record.{
  Spot, QuoteStore, insert_row, keep_window, read_quote, quote_of, record_sides, record_spot,
  record_spots,
}
use xauusd.Quotes.History.{IsBounded}
use xauusd.Quotes.Accepted.{record_spots-IsBounded}
use xauusd.Quotes.Saved.{IsRefusedOrRecorded, record_spot-IsRecorded}

abbrev close_enough : Exact → Exact → Bool
close_enough a b = true

abbrev empty_store : QuoteStore Exact
empty_store = record { snapshot = none; history = [] }

abbrev spot : Spot
spot = record { symbol_id = some 41; bid = some 400000000; ask = some 400100000; timestamp = none }

abbrev one_sided : Spot
one_sided = record spot { ask = none }

-- The second frame is of the same second, and the third has one side.
abbrev frames : List (Spot × ℕ)
frames = (spot, 5000000000) ∷ (spot, 5000400000) ∷ (one_sided, 5002000000) ∷ (spot, 5003000000) ∷ []

recorded_seconds :
    map (λ x. x.received_second) (record_spots close_enough 41 frames empty_store).history
    ≡ 5000 ∷ 5003 ∷ []
unfolding record_spots record_spot record_sides read_quote insert_row keep_window
recorded_seconds = refl

-- A store whose snapshot is lost and whose table has a row of the second before.
abbrev stored : QuoteStore Exact
stored = record {
  snapshot = none;
  history =
      record {
        received_second = 4999;
        quote = quote_of close_enough 400000000 400100000 none 4999000000;
      }
      ∷ [];
}

record_spot-IsRecorded_example :
    IsRefusedOrRecorded close_enough spot 41 5000000000 stored
      (record_spot close_enough spot 41 5000000000 stored)
record_spot-IsRecorded_example =
    record_spot-IsRecorded close_enough spot 41 5000000000 stored (omega arith, tt)

record_spots-IsBounded_example : IsBounded (record_spots close_enough 41 frames empty_store).history
record_spots-IsBounded_example = record_spots-IsBounded close_enough 41 frames
