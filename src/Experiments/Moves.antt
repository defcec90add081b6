-- ===== src/Experiments/Moves.antt =====
-- What a call can do to the rows: a relation between a row before it and the row after it.
use xauusd.Prelude.{
  ℕ, String, ◌+◌, ◌≡◌, refl, Bool, true, false, if◌then◌else◌, Option, some, List, [], ◌∷◌, ◌++◌,
  map, arith, Bool-cases, All, &&_iff, subst, ap, sym, ◌∙◌, inl, inr,
}
use xauusd.Prelude.Int.{ℤ}
use xauusd.Experiments.State.{ExperimentStatus, ExperimentSpec, Experiment}
use xauusd.Experiments.Registry.{
  Report, update_where, find_experiment, means_queued, means_running, is_owned, new_experiment,
  claim_row, finish_row, requeue_row, recover_row,
}

-- The steps of one experiment. A retry counts on from a running row for which `Q` holds, the row that
-- the transaction has read, under a limit for which `L` holds.
pub data Move (Q : Experiment → Type 0) (L : Option ℕ → Type 0) (x : Experiment)
    : Experiment → Type 0 where
  stays : Move Q L x x
  claims :
      (worker : String) (now : ℕ)
      → x.status ≡ ExperimentStatus.queued
      → Move Q L x (claim_row worker now x)
  beats :
      (now : ℕ)
      → x.status ≡ ExperimentStatus.running
      → Move Q L x (record x { heartbeat_at = some now })
  completes :
      (r : Report) (now : ℕ)
      → x.status ≡ ExperimentStatus.running
      → Move Q L x (finish_row ExperimentStatus.completed r now x)
  fails :
      (r : Report) (now : ℕ)
      → x.status ≡ ExperimentStatus.running
      → Move Q L x (finish_row ExperimentStatus.failed r now x)
  retries :
      (read : Experiment) (error code : String) (now : ℕ) (limit : Option ℕ)
      → Q read
      → read.status ≡ ExperimentStatus.running
      → L limit
      → x.status ≡ ExperimentStatus.running
      → Move Q L x (requeue_row (read.retry_count + 1) error code now limit x)
  recovers :
      (error : String) → x.status ≡ ExperimentStatus.running → Move Q L x (recover_row error x)
  flags : (promoted : Bool) → Move Q L x (record x { promoted = promoted })

-- The steps of the table: each row takes one, and a new row may come at the end.
pub data Moves (Q : Experiment → Type 0) (L : Option ℕ → Type 0)
    : List Experiment → List Experiment → Type 0 where
  last : Moves Q L [] []
  adds :
      (id : ℕ) (spec : ExperimentSpec) (priority : ℤ)
      → Moves Q L [] (new_experiment id spec priority ∷ [])
  next :
      {x y : Experiment} {xs ys : List Experiment}
      → Move Q L x y
      → Moves Q L xs ys
      → Moves Q L (x ∷ xs) (y ∷ ys)

pub means_running_lem :
    (s : ExperimentStatus) → means_running s ≡ true → s ≡ ExperimentStatus.running
means_running_lem ExperimentStatus.running h = refl
means_running_lem ExperimentStatus.queued h = cc
means_running_lem ExperimentStatus.completed h = cc
means_running_lem ExperimentStatus.failed h = cc
means_running_lem ExperimentStatus.cancelled h = cc

pub means_queued_lem : (s : ExperimentStatus) → means_queued s ≡ true → s ≡ ExperimentStatus.queued
means_queued_lem ExperimentStatus.queued h = refl
means_queued_lem ExperimentStatus.running h = cc
means_queued_lem ExperimentStatus.completed h = cc
means_queued_lem ExperimentStatus.failed h = cc
means_queued_lem ExperimentStatus.cancelled h = cc

pub owned_running :
    (id : ℕ) (worker : String) (x : Experiment)
    → is_owned id worker x ≡ true
    → x.status ≡ ExperimentStatus.running
owned_running id worker x h = means_running_lem x.status ((&&_iff _ _).0 ((&&_iff _ _).0 h).1).0

-- The row that a search finds is one of the table.
pub find-All :
    (Q : Experiment → Type 0) (test : Experiment → Bool) (xs : List Experiment) (y : Experiment)
    → All Q xs
    → find_experiment test xs ≡ some y
    → Q y
unfolding find_experiment
find-All Q test [] y h e = absurd (ground arith)
find-All Q test (x ∷ xs) y h e = elim (Bool-cases (test x)) [
  | inl found ↦ let same : x ≡ y = ground arith in subst Q same h.0
  | inr missed ↦ find-All Q test xs y h.1 (ground arith)
]

pub find-test :
    (test : Experiment → Bool) (xs : List Experiment) (y : Experiment)
    → find_experiment test xs ≡ some y
    → test y ≡ true
unfolding find_experiment
find-test test [] y e = absurd (ground arith)
find-test test (x ∷ xs) y e = elim (Bool-cases (test x)) [
  | inl found ↦ let same : x ≡ y = ground arith in ap test (sym same) ∙ found
  | inr missed ↦ find-test test xs y (ground arith)
]

module _ (Q : Experiment → Type 0) (L : Option ℕ → Type 0) where
  pub Moves-map :
      (change : Experiment → Experiment) (xs : List Experiment)
      → ((x : Experiment) → Move Q L x (change x))
      → Moves Q L xs (map change xs)
  Moves-map change [] h = last
  Moves-map change (x ∷ xs) h = next (h x) (Moves-map change xs h)

  pub Move-if :
      (test : Bool) (x y : Experiment)
      → (test ≡ true → Move Q L x y)
      → Move Q L x (if test then y else x)
  Move-if true x y h = h refl
  Move-if false x y h = stays

  pub Moves-update :
      (test : Experiment → Bool) (change : Experiment → Experiment) (xs : List Experiment)
      → ((x : Experiment) → test x ≡ true → Move Q L x (change x))
      → Moves Q L xs (update_where test change xs)
  Moves-update test change xs h = Moves-map _ xs (λ x. Move-if (test x) x (change x) (h x))

  pub Moves-refl : (xs : List Experiment) → Moves Q L xs xs
  Moves-refl [] = last
  Moves-refl (x ∷ xs) = next stays (Moves-refl xs)

  pub Moves-append_one :
      (id : ℕ) (spec : ExperimentSpec) (priority : ℤ) (xs : List Experiment)
      → Moves Q L xs (xs ++ new_experiment id spec priority ∷ [])
  Moves-append_one id spec priority [] = adds id spec priority
  Moves-append_one id spec priority (x ∷ xs) = next stays (Moves-append_one id spec priority xs)

  Move-flag_again :
      (test was : Bool) (x : Experiment)
      → Move Q L x (
          if test
          then record (record x { promoted = was }) { promoted = true }
          else record x { promoted = was })
  Move-flag_again true was x = flags true
  Move-flag_again false was x = flags was

  -- The two updates of a promotion, on one row.
  pub Move-flags :
      (here : Experiment → Bool) (there : Bool) (x : Experiment)
      → Move Q L x (
          let y = if there then record x { promoted = false } else x in
          if here y then record y { promoted = true } else y)
  Move-flags here true x = Move-flag_again (here (record x { promoted = false })) false x
  Move-flags here false x = Move-flag_again (here x) x.promoted x
