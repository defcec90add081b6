-- ===== src/Transcript/Prune.antt =====
-- What pruning the transcript keeps.
use xauusd.Prelude.{
  ℕ, zero, suc, ◌+◌, ◌-◌, ◌≤◌, ◌<◌, ◌≡◌, refl, sym, ap, ◌∙◌, true, false, not, ◌&&◌, if◌then◌else◌,
  List, [], ◌∷◌, arith, length, leb, Bool-cases, inl, inr, subst,
}
use xauusd.Transcript.Store.{
  AgentRun, Step, TranscriptDb, has_run, is_deletable, delete_old_runs, delete_oldest_steps,
  take_runs, newest_first, prune_steps, prune,
}

-- The steps that the reader has not seen: those up to the id.
unfoldable pub unread : ℕ → List Step → List Step
unread p [] = []
unread p (x ∷ xs) = let rest = unread p xs in if leb x.id p then x ∷ rest else rest

unread-kept :
    (p : ℕ) (x : Step) (xs ys : List Step)
    → unread p xs ≡ unread p ys
    → unread p (x ∷ xs) ≡ unread p (x ∷ ys)
unfolding unread
unread-kept p x xs ys h = ap (λ l. if leb x.id p then x ∷ l else l) h

unread-deleted :
    (p : ℕ) (x : Step) (xs ys : List Step)
    → 0 < p
    → is_deletable p x ≡ true
    → unread p xs ≡ unread p ys
    → unread p xs ≡ unread p (x ∷ ys)
unfolding unread
unread-deleted p x xs ys positive h same =
    let read : leb x.id p ≡ false = ground (arith, positive, h) in
    same ∙ sym (rw (unread, read) refl)

delete_old_runs-unread :
    (recent : List AgentRun) (p : ℕ) (xs : List Step)
    → 0 < p
    → unread p (delete_old_runs recent p xs) ≡ unread p xs
unfolding delete_old_runs
delete_old_runs-unread recent p [] positive = refl
delete_old_runs-unread recent p (x ∷ xs) positive =
    let rest = delete_old_runs recent p xs in
    let same = delete_old_runs-unread recent p xs positive in
    elim (Bool-cases (not (has_run x.run_id recent) && is_deletable p x)) [
      | inl gone ↦
          rw (delete_old_runs, gone)
            (unread-deleted p x rest xs positive (ground (arith, gone)) same)
      | inr kept ↦ rw (delete_old_runs, kept) (unread-kept p x rest xs same)
    ]

delete_oldest_steps-unread :
    (k p : ℕ) (xs : List Step) → 0 < p → unread p (delete_oldest_steps k p xs) ≡ unread p xs
unfolding delete_oldest_steps
delete_oldest_steps-unread zero p xs positive = refl
delete_oldest_steps-unread (suc k) p [] positive = refl
delete_oldest_steps-unread (suc k) p (x ∷ xs) positive =
    let rest = delete_oldest_steps k p xs in
    let same = delete_oldest_steps-unread k p xs positive in
    elim (Bool-cases (is_deletable p x)) [
      | inl gone ↦ rw (delete_oldest_steps, gone) (unread-deleted p x rest xs positive gone same)
      | inr kept ↦ rw (delete_oldest_steps, kept) (unread-kept p x rest xs same)
    ]

delete_oldest_steps-length :
    (k : ℕ) (xs : List Step) → length (delete_oldest_steps k 0 xs) ≡ length xs - k
unfolding delete_oldest_steps
delete_oldest_steps-length zero xs = omega arith
delete_oldest_steps-length (suc k) [] = omega arith
delete_oldest_steps-length (suc k) (x ∷ xs) = omega (arith, delete_oldest_steps-length k xs)

-- The steps after a pruning of those of a table that has a recent run.
abbrev pub IsPruned : ℕ → ℕ → List Step → List Step → Type 0
IsPruned keep p steps left = (0 < p → unread p left ≡ unread p steps) × (p ≡ 0 → length left ≤ keep)

prune_recent :
    (keep p : ℕ) (recent : List AgentRun) (steps : List Step)
    → (let kept = delete_old_runs recent p steps in
        IsPruned keep p steps (
          if leb (length kept) keep then kept else delete_oldest_steps (length kept - keep) p kept))
prune_recent keep p recent steps =
    let kept = delete_old_runs recent p steps in
    elim (Bool-cases (leb (length kept) keep)) [
      | inl few ↦
          rw (few) (
            (λ positive. delete_old_runs-unread recent p steps positive),
            (λ e. ground (arith, few)),
          )
      | inr many ↦ rw (many) (
        (λ positive.
            delete_oldest_steps-unread (length kept - keep) p kept positive
            ∙ delete_old_runs-unread recent p steps positive),
        (λ e. bounded e many),
      )
    ]
  where
    bounded :
        (let kept = delete_old_runs recent p steps in
          p ≡ 0
          → leb (length kept) keep ≡ false
          → length (delete_oldest_steps (length kept - keep) p kept) ≤ keep)
    bounded e many =
        let kept = delete_old_runs recent p steps in
        let size =
          ap (λ q. length (delete_oldest_steps (length kept - keep) q kept)) e
          ∙ delete_oldest_steps-length (length kept - keep) kept in
        ground (arith, many, size)

delete_old_runs-length :
    (recent : List AgentRun) (p : ℕ) (xs : List Step)
    → length (delete_old_runs recent p xs) ≤ length xs
unfolding delete_old_runs
delete_old_runs-length recent p [] = omega arith
delete_old_runs-length recent p (x ∷ xs) =
    elim (Bool-cases (not (has_run x.run_id recent) && is_deletable p x)) [
      | inl gone ↦ rw (delete_old_runs, gone) (omega (arith, delete_old_runs-length recent p xs))
      | inr kept ↦ rw (delete_old_runs, kept) (omega (arith, delete_old_runs-length recent p xs))
    ]

delete_oldest_steps_shorter :
    (k p : ℕ) (xs : List Step) → length (delete_oldest_steps k p xs) ≤ length xs
unfolding delete_oldest_steps
delete_oldest_steps_shorter zero p xs = omega arith
delete_oldest_steps_shorter (suc k) p [] = omega arith
delete_oldest_steps_shorter (suc k) p (x ∷ xs) = elim (Bool-cases (is_deletable p x)) [
  | inl gone ↦ rw (delete_oldest_steps, gone) (omega (arith, delete_oldest_steps_shorter k p xs))
  | inr kept ↦ rw (delete_oldest_steps, kept) (omega (arith, delete_oldest_steps_shorter k p xs))
]

-- What the second deletion leaves is no longer than what it is given.
limited_shorter :
    (keep p : ℕ) (kept : List Step)
    → length
        (if leb (length kept) keep then kept else delete_oldest_steps (length kept - keep) p kept)
      ≤ length kept
limited_shorter keep p kept = elim (Bool-cases (leb (length kept) keep)) [
  | inl few ↦ rw (few) (omega arith)
  | inr many ↦ rw (many) (delete_oldest_steps_shorter (length kept - keep) p kept)
]

-- What pruning a table makes of it.
abbrev pub IsPrunedTable : ℕ → ℕ → List Step → (ℕ × ℕ) × List Step → Type 0
IsPrunedTable keep p steps ((runs_removed, steps_removed), left) =
    IsPruned keep p steps left × (runs_removed + steps_removed + length left ≡ length steps)

prune_steps-IsPruned :
    (keep p : ℕ) (r : AgentRun) (rs : List AgentRun) (steps : List Step)
    → IsPrunedTable keep p steps (prune_steps (r ∷ rs) keep p steps)
unfolding prune_steps
prune_steps-IsPruned keep p r rs steps = (
  prune_recent keep p (r ∷ rs) steps,
  omega (
    arith,
    delete_old_runs-length (r ∷ rs) p steps,
    limited_shorter keep p (delete_old_runs (r ∷ rs) p steps),
  ),
)

-- If a run is among the newest `keep_runs`, then pruning with a reader's position keeps every step up to
-- that position, in its order, and pruning without one leaves no more than `keep_steps` steps. The
-- two numbers that it reports are together the number of steps that are gone, and no run goes.
pub prune-IsPruned :
    (keep_runs keep_steps p : ℕ) (db : TranscriptDb) (r : AgentRun) (rs : List AgentRun)
    → take_runs keep_runs (newest_first db.runs []) ≡ r ∷ rs
    → (let (removed, db') = prune keep_runs keep_steps p db in
        IsPrunedTable keep_steps p db.steps (removed, db'.steps) × (db'.runs ≡ db.runs))
unfolding prune
prune-IsPruned keep_runs keep_steps p db r rs recent = (
  subst (λ l. IsPrunedTable keep_steps p db.steps (prune_steps l keep_steps p db.steps))
      (sym recent) (prune_steps-IsPruned keep_steps p r rs db.steps),
  refl,
)
