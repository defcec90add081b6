-- ===== src/Quotes/History.antt =====
-- That the history of quotes stays sorted and bounded.
use xauusd.Prelude.{
  ℕ, suc, ◌+◌, ◌-◌, ◌≤◌, Bool, ◌||◌, List, [], ◌∷◌, arith, length, ltb, ◌==◌, Bool-cases, inl, inr,
  ◌⊎◌,
}
use xauusd.Number.{Number}
use xauusd.Quotes.Record.{
  Quote, HistoryRow, QuoteStore, insert_row, keep_window, cutoff_of, second_of, save_quote,
}

-- Strictly rising seconds, from `lo` on.
abbrev pub Rises : {F : Type 0} → ℕ → List (HistoryRow F) → Type 0
Rises lo [] = Unit
Rises lo (x ∷ xs) = (lo ≤ x.received_second) × Rises (suc x.received_second) xs

-- The same, and no second after `hi`.
abbrev InWindow : {F : Type 0} → ℕ → ℕ → List (HistoryRow F) → Type 0
InWindow lo hi [] = Unit
InWindow lo hi (x ∷ xs) =
    (lo ≤ x.received_second) × (x.received_second ≤ hi) × InWindow (suc x.received_second) hi xs

module _ {F : Type 0} where
  Rises-insert_row :
      (lo : ℕ) (x : HistoryRow F) (xs : List (HistoryRow F))
      → lo ≤ x.received_second
      → Rises lo xs
      → Rises lo (insert_row x xs)
  unfolding insert_row
  Rises-insert_row lo x [] low h = (low, tt)
  Rises-insert_row lo x (y ∷ ys) low h =
      elim (Bool-cases (ltb x.received_second y.received_second)) [
        | inl before ↦ rw (insert_row, before) (low, (ground (arith, before), h.1))
        | inr not_before ↦ elim (Bool-cases (x.received_second == y.received_second)) [
          | inl same ↦ rw (insert_row, not_before, same) h
          | inr other ↦
              rw (insert_row, not_before, other)
                (
                  h.0,
                  Rises-insert_row (suc y.received_second) x ys (ground (arith, not_before, other))
                      h.1,
                )
        ]
      ]

  keep_window-InWindow :
      (l lo cutoff hi : ℕ) (xs : List (HistoryRow F))
      → (l ≤ lo) ⊎ (l ≤ cutoff)
      → Rises lo xs
      → InWindow l hi (keep_window cutoff hi xs)
  unfolding keep_window
  keep_window-InWindow l lo cutoff hi [] low h = tt
  keep_window-InWindow l lo cutoff hi (x ∷ xs) low h =
      elim (Bool-cases (ltb x.received_second cutoff || ltb hi x.received_second)) [
        | inl gone ↦
            rw (keep_window, gone)
              (keep_window-InWindow l (suc x.received_second) cutoff hi xs
                (ground (arith, low, h.0)) h.1)
        | inr kept ↦
            rw (keep_window, kept)
              (
                ground (arith, low, h.0, kept),
                ground (arith, kept),
                keep_window-InWindow (suc x.received_second) (suc x.received_second) cutoff hi xs
                    (inl (omega arith)) h.1,
              )
      ]

  InWindow-Rises :
      (l lo hi : ℕ) (xs : List (HistoryRow F)) → l ≤ lo → InWindow lo hi xs → Rises l xs
  InWindow-Rises l lo hi [] low h = tt
  InWindow-Rises l lo hi (x ∷ xs) low h = (
    omega (arith, low, h.0),
    InWindow-Rises (suc x.received_second) (suc x.received_second) hi xs (omega arith) h.2,
  )

  InWindow-length :
      (lo hi : ℕ) (xs : List (HistoryRow F)) → InWindow lo hi xs → length xs ≤ hi + 1 - lo
  InWindow-length lo hi [] h = omega arith
  InWindow-length lo hi (x ∷ xs) h =
      omega (arith, h.0, h.1, InWindow-length (suc x.received_second) hi xs h.2)

-- The seconds rise strictly, and there are no more rows than the window has seconds.
abbrev pub IsBounded : {F : Type 0} → List (HistoryRow F) → Type 0
IsBounded rows = Rises 0 rows × (length rows ≤ 604800)

module _ {F : Type 0} ⦃n : Number F⦄ (is_close : F → F → Bool) where
  pub save_quote-IsBounded :
      (quote : Quote F) (db : QuoteStore F)
      → IsBounded db.history
      → IsBounded (save_quote is_close quote db).history
  save_quote-IsBounded quote db h =
      let second = second_of quote.received_at in
      let row : HistoryRow F = record { received_second = second; quote = quote } in
      let kept =
        keep_window-InWindow (cutoff_of second) 0 (cutoff_of second) second
          (insert_row row db.history) (inr (omega arith))
          (Rises-insert_row 0 row db.history (omega arith) h.0) in
      (
        InWindow-Rises 0 (cutoff_of second) second _ (omega arith) kept,
        omega (arith, InWindow-length (cutoff_of second) second _ kept),
      )
