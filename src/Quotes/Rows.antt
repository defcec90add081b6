-- ===== src/Quotes/Rows.antt =====
-- What the table of quotes holds at each second, as a map.
use xauusd.Prelude.{
  ℕ, suc, ◌+◌, ◌<◌, ◌≡◌, refl, ◌∙◌, ap, Bool, not, ◌&&◌, ◌||◌, if◌then◌else◌, Option, none, some,
  List, [], ◌∷◌, arith, ltb, leb, ◌==◌, Bool-cases, inl, inr,
}
use xauusd.Number.{Number}
use xauusd.Quotes.Record.{
  Quote, HistoryRow, QuoteStore, insert_row, keep_window, cutoff_of, second_of, save_quote,
}
use xauusd.Quotes.History.{Rises}

module _ {F : Type 0} where
  -- The row of a second.
  abbrev pub row_at : ℕ → List (HistoryRow F) → Option (HistoryRow F)
  row_at k [] = none
  row_at k (x ∷ xs) = if x.received_second == k then some x else row_at k xs

  -- A row, and otherwise this one.
  abbrev pub or_else : HistoryRow F → Option (HistoryRow F) → Option (HistoryRow F)
  or_else x none = some x
  or_else x (some y) = some y

  -- The row of a second after a quote was recorded: none outside the seven days up to the quote's
  -- second, the old row there, and at the quote's second the new one if there was no old one.
  abbrev pub row_after : Quote F → ℕ → List (HistoryRow F) → ℕ → Option (HistoryRow F)
  row_after q second rows k =
      if not (ltb second (k + 604800) && leb k second)
      then none
      else if k == second
      then or_else (record { received_second = second; quote = q }) (row_at k rows)
      else row_at k rows

  row_at-Rises : (k lo : ℕ) (xs : List (HistoryRow F)) → k < lo → Rises lo xs → row_at k xs ≡ none
  row_at-Rises k lo [] h r = refl
  row_at-Rises k lo (x ∷ xs) h r =
      ground (arith, h, r.0, row_at-Rises k (suc x.received_second) xs (omega (arith, h, r.0)) r.1)

  row_at-insert_row :
      (k lo : ℕ) (x : HistoryRow F) (xs : List (HistoryRow F))
      → Rises lo xs
      → row_at k (insert_row x xs)
        ≡ (if k == x.received_second then or_else x (row_at k xs) else row_at k xs)
  unfolding insert_row
  row_at-insert_row k lo x [] r = ground arith
  row_at-insert_row k lo x (y ∷ ys) r =
      elim (Bool-cases (ltb x.received_second y.received_second)) [
        | inl before ↦ elim (Bool-cases (k == x.received_second)) [
          | inl here ↦
              let empty : row_at k (y ∷ ys) ≡ none =
                row_at-Rises k y.received_second (y ∷ ys) (ground (arith, before, here))
                  (omega arith, r.1) in
              rw (insert_row, before, here, empty) (ground (arith, here))
          | inr there ↦ ground (arith, before, there)
        ]
        | inr not_before ↦
            ground (arith, not_before, row_at-insert_row k (suc y.received_second) x ys r.1)
      ]

  row_at-keep_window :
      (k cutoff second : ℕ) (xs : List (HistoryRow F))
      → row_at k (keep_window cutoff second xs)
        ≡ (if ltb k cutoff || ltb second k then none else row_at k xs)
  unfolding keep_window
  row_at-keep_window k cutoff second [] = ground arith
  row_at-keep_window k cutoff second (x ∷ xs) =
      ground (arith, row_at-keep_window k cutoff second xs)

module _ {F : Type 0} ⦃n : Number F⦄ (is_close : F → F → Bool) where
  pub save_quote-row_after :
      (q : Quote F) (db : QuoteStore F) (k : ℕ)
      → Rises 0 db.history
      → row_at k (save_quote is_close q db).history
        ≡ row_after q (second_of q.received_at) db.history k
  save_quote-row_after q db k rises =
      let second = second_of q.received_at in
      let x : HistoryRow F = record { received_second = second; quote = q } in
      row_at-keep_window k (cutoff_of second) second (insert_row x db.history)
      ∙ ap (λ o. if ltb k (cutoff_of second) || ltb second k then none else o)
          (row_at-insert_row k 0 x db.history rises)
      ∙ ground arith
