-- ===== src/Jobs/Prune.antt =====
-- What pruning the table of jobs keeps.
use xauusd.Prelude.{
  ℕ, zero, suc, ◌+◌, ◌-◌, ◌≤◌, ◌≡◌, refl, sym, ap, ◌∙◌, true, false, List, [], ◌∷◌, arith, length,
  ltb, leb, Bool-cases, inl, inr,
}
use xauusd.Jobs.Store.{JobRow, is_terminal, rows_by, delete_oldest, prune_jobs}

-- The list without its first `k` entries.
abbrev pub drop : {A : Type 0} → ℕ → List A → List A
drop zero xs = xs
drop (suc k) [] = []
drop (suc k) (x ∷ xs) = drop k xs

length-drop : {A : Type 0} (k : ℕ) (xs : List A) → length (drop k xs) ≡ length xs - k
length-drop zero xs = omega arith
length-drop (suc k) [] = omega arith
length-drop (suc k) (x ∷ xs) = omega (arith, length-drop k xs)

-- A row in front of the others, of either kind.
rows_by-terminal :
    (x : JobRow) (xs : List JobRow)
    → is_terminal x.status ≡ true
    → (rows_by true (x ∷ xs) ≡ x ∷ rows_by true xs) × (rows_by false (x ∷ xs) ≡ rows_by false xs)
unfolding rows_by
rows_by-terminal x xs h = (rw (rows_by, h) refl, rw (rows_by, h) refl)

rows_by-live :
    (x : JobRow) (xs : List JobRow)
    → is_terminal x.status ≡ false
    → (rows_by true (x ∷ xs) ≡ rows_by true xs) × (rows_by false (x ∷ xs) ≡ x ∷ rows_by false xs)
unfolding rows_by
rows_by-live x xs h = (rw (rows_by, h) refl, rw (rows_by, h) refl)

delete_oldest-live :
    (k : ℕ) (x : JobRow) (xs : List JobRow)
    → is_terminal x.status ≡ false
    → delete_oldest k (x ∷ xs) ≡ x ∷ delete_oldest k xs
unfolding delete_oldest
delete_oldest-live k x xs h = rw (delete_oldest, h) refl

delete_oldest-zero :
    (x : JobRow) (xs : List JobRow) → delete_oldest 0 (x ∷ xs) ≡ x ∷ delete_oldest 0 xs
unfolding delete_oldest
delete_oldest-zero x xs = elim (Bool-cases (is_terminal x.status)) [
  | inl h ↦ rw (delete_oldest, h) refl
  | inr h ↦ rw (delete_oldest, h) refl
]

delete_oldest-suc :
    (k : ℕ) (x : JobRow) (xs : List JobRow)
    → is_terminal x.status ≡ true
    → delete_oldest (suc k) (x ∷ xs) ≡ delete_oldest k xs
unfolding delete_oldest
delete_oldest-suc k x xs h =
    let positive : ltb 0 (suc k) ≡ true = ground arith in
    let less : suc k - 1 ≡ k = omega arith in
    rw (delete_oldest, h, positive) (ap (λ j. delete_oldest j xs) less)

-- The oldest rows with a terminal status go, as many as asked, and all others stay.
delete_oldest-rows_by :
    (k : ℕ) (xs : List JobRow)
    → (rows_by true (delete_oldest k xs) ≡ drop k (rows_by true xs))
      × (rows_by false (delete_oldest k xs) ≡ rows_by false xs)
unfolding delete_oldest rows_by
delete_oldest-rows_by zero [] = (refl, refl)
delete_oldest-rows_by (suc k) [] = (refl, refl)
delete_oldest-rows_by zero (x ∷ xs) =
    let (old, live) = delete_oldest-rows_by zero xs in
    elim (Bool-cases (is_terminal x.status)) [
      | inl h ↦ (
        ap (rows_by true) (delete_oldest-zero x xs)
            ∙ (rows_by-terminal x (delete_oldest 0 xs) h).0
            ∙ ap (λ l. x ∷ l) old
            ∙ sym (rows_by-terminal x xs h).0,
        ap (rows_by false) (delete_oldest-zero x xs)
            ∙ (rows_by-terminal x (delete_oldest 0 xs) h).1
            ∙ live
            ∙ sym (rows_by-terminal x xs h).1,
      )
      | inr h ↦ (
        ap (rows_by true) (delete_oldest-zero x xs)
            ∙ (rows_by-live x (delete_oldest 0 xs) h).0
            ∙ old
            ∙ sym (rows_by-live x xs h).0,
        ap (rows_by false) (delete_oldest-zero x xs)
            ∙ (rows_by-live x (delete_oldest 0 xs) h).1
            ∙ ap (λ l. x ∷ l) live
            ∙ sym (rows_by-live x xs h).1,
      )
    ]
delete_oldest-rows_by (suc k) (x ∷ xs) = elim (Bool-cases (is_terminal x.status)) [
  | inl h ↦
      let (old, live) = delete_oldest-rows_by k xs in
      (
        ap (rows_by true) (delete_oldest-suc k x xs h)
            ∙ old
            ∙ sym (ap (drop (suc k)) (rows_by-terminal x xs h).0),
        ap (rows_by false) (delete_oldest-suc k x xs h) ∙ live ∙ sym (rows_by-terminal x xs h).1,
      )
  | inr h ↦
      let (old, live) = delete_oldest-rows_by (suc k) xs in
      (
        ap (rows_by true) (delete_oldest-live (suc k) x xs h)
            ∙ (rows_by-live x (delete_oldest (suc k) xs) h).0
            ∙ old
            ∙ ap (drop (suc k)) (sym (rows_by-live x xs h).0),
        ap (rows_by false) (delete_oldest-live (suc k) x xs h)
            ∙ (rows_by-live x (delete_oldest (suc k) xs) h).1
            ∙ ap (λ l. x ∷ l) live
            ∙ sym (rows_by-live x xs h).1,
      )
]

-- What a table of jobs is pruned to.
abbrev pub IsPruned : ℕ → List JobRow → ℕ × List JobRow → Type 0
IsPruned keep rows (removed, rows') =
    let total = length (rows_by true rows) in
    (rows_by false rows' ≡ rows_by false rows)
    × (rows_by true rows' ≡ drop (total - keep) (rows_by true rows))
    × (length (rows_by true rows') ≤ keep)
    × (removed + length (rows_by true rows') ≡ total)

-- Pruning leaves every job whose status is not terminal, in its order, so every running one. Of the
-- jobs with a terminal status it removes the oldest, until no more than `keep` are left, and it
-- reports their number.
pub prune_jobs-IsPruned :
    (keep : ℕ) (rows : List JobRow) → IsPruned keep rows (prune_jobs keep rows)
unfolding prune_jobs
prune_jobs-IsPruned keep rows =
    let total = length (rows_by true rows) in
    elim (Bool-cases (leb total keep)) [
      | inl few ↦
          let none_over : total - keep ≡ 0 = ground (arith, few) in
          rw (prune_jobs, few)
            (
              refl,
              sym (ap (λ k. drop k (rows_by true rows)) none_over),
              ground (arith, few),
              omega arith,
            )
      | inr many ↦
          let (old, live) = delete_oldest-rows_by (total - keep) rows in
          let size = ap length old ∙ length-drop (total - keep) (rows_by true rows) in
          rw (prune_jobs, many) (live, old, ground (arith, many, size), ground (arith, many, size))
    ]
