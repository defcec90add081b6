-- ===== src/Paper/RowExamples.antt =====
-- The theorems on stored rows, each at a row.
use xauusd.Prelude.{String, ℕ, ◌≡◌, refl, false}
use xauusd.Prelude.Int.{pos}
use xauusd.Number.{Exact, whole, nan, exact}
use xauusd.Paper.{PaperState, readable, validated, default_state}
use xauusd.Paper.Validation.{
  Json, null, boolean, object, number, huge, words, array, no_items, member, no_members, encode,
  trusted, overflow, key_of, all_finite, validated_object, validated_json, validated_json-encode,
}

abbrev cash : Exact
cash = whole (pos 100000)

abbrev show_time : ℕ → String
show_time t = "2026-10-13T12:00:00+00:00"

-- A running account whose position is not a number.
abbrev broken_state : PaperState Exact
broken_state = record (default_state cash) { stopped = false; position = nan }

validated_json-encode_example :
    validated_json show_time cash (object (encode show_time broken_state))
    ≡ trusted (encode show_time (validated cash (readable broken_state)))
validated_json-encode_example = validated_json-encode show_time cash broken_state

-- An account whose position is an integer beyond the floats' range.
abbrev huge_row : Json Exact
huge_row = object (
    member "average_entry_price" (number cash) (
      member "cash" (number cash) (
        member "day" null (
          member "day_start_equity" (number cash) (
            member "high_water_equity" (number cash) (
              member "kill_switch_reason" (words "operator") (
                member "ledger" (array no_items) (
                  member "mark_price" (number cash) (
                    member "position" huge (
                      member "stopped" (boolean false)
                        (member "trades_today" (number cash) no_members)))))))))))

huge_row_raises : validated_json show_time cash huge_row ≡ overflow
unfolding validated_json validated_object all_finite key_of
huge_row_raises = refl
