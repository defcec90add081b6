-- ===== src/Jobs/Once.antt =====
-- That a shell action is started at most once.
use text.Mathlib.Text.{◌==◌ as str_eq}
use text.Mathlib.TextEquality.{eq_iff}
use xauusd.Prelude.{
  ℕ, String, ◌+◌, ◌≤◌, ◌≡◌, refl, sym, ap, ◌∙◌, Bool, true, false, ◌&&◌, if◌then◌else◌, Option,
  none, some, List, [], ◌∷◌, ◌++◌, map, arith, Bool-cases, Option-cases, inl, inr, &&_iff,
}
use xauusd.Jobs.Store.{
  JobRow, JobResult, Action, Claim, claimed, action_id_conflict, find_job, claim, key_of_action,
  finish_job, finish_job_row, stamp, interrupted, finish_interrupted, running_results, recover_jobs,
}

pub data JobCall : Type 0 where
  claim_call : String → Action → String → JobCall
  finish_call : JobResult → JobCall
  recover_call : JobCall

abbrev pub is_present : Option JobRow → Bool
is_present none = false
is_present (some x) = true

abbrev pub has_job : String → List JobRow → Bool
has_job key rows = is_present (find_job key rows)

-- Whether the answer of a claim starts a worker.
abbrev pub is_created : Claim → Bool
is_created (claimed r created) = created
is_created action_id_conflict = false

module _ (digest : String → String) where
  unfoldable pub job_call : JobCall → ℕ → List JobRow → List JobRow
  job_call (claim_call cycle action job_id) now rows = (claim digest cycle action job_id now rows).1
  job_call (finish_call r) now rows = finish_job r now rows
  job_call recover_call now rows = (recover_jobs now rows).1

  -- Whether a call starts a worker for the job of the key.
  unfoldable pub is_start : String → JobCall → ℕ → List JobRow → Bool
  is_start key (claim_call cycle action job_id) now rows =
      str_eq (key_of_action digest cycle action) key
      && is_created (claim digest cycle action job_id now rows).0
  is_start key (finish_call r) now rows = false
  is_start key recover_call now rows = false

  -- How often calls start a worker for the job of the key.
  unfoldable pub starts : String → List (JobCall × ℕ) → List JobRow → ℕ
  starts key [] rows = 0
  starts key ((call, now) ∷ calls) rows =
      (if is_start key call now rows then 1 else 0) + starts key calls (job_call call now rows)

finish_job_row-key : (r : JobResult) (x : JobRow) → (finish_job_row r x).action_key ≡ x.action_key
finish_job_row-key r x = elim (Bool-cases (str_eq x.job_id r.job_id)) [
  | inl here ↦ rw (here) refl
  | inr away ↦ rw (away) refl
]

-- A change of rows that keeps their keys keeps which keys have a job.
has_job-map :
    (key : String) (f : JobRow → JobRow) (rows : List JobRow)
    → ((x : JobRow) → (f x).action_key ≡ x.action_key)
    → has_job key (map f rows) ≡ has_job key rows
unfolding find_job
has_job-map key f [] same = refl
has_job-map key f (x ∷ xs) same =
    if-present (str_eq (f x).action_key key) (str_eq x.action_key key) (find_job key (map f xs))
      (find_job key xs) (f x) x (ap (λ k. str_eq k key) (same x)) (has_job-map key f xs same)
  where
    if-present :
        (a b : Bool) (o p : Option JobRow) (y x : JobRow)
        → a ≡ b
        → is_present o ≡ is_present p
        → is_present (if a then some y else o) ≡ is_present (if b then some x else p)
    if-present true true o p y x e h = refl
    if-present false false o p y x e h = h
    if-present true false o p y x e h = cc
    if-present false true o p y x e h = cc

has_job-finish_job :
    (key : String) (r : JobResult) (now : ℕ) (rows : List JobRow)
    → has_job key (finish_job r now rows) ≡ has_job key rows
unfolding finish_job
has_job-finish_job key r now rows = has_job-map key _ rows (finish_job_row-key (stamp now r))

has_job-finish_interrupted :
    (key : String) (rs : List JobResult) (now : ℕ) (rows : List JobRow)
    → has_job key (finish_interrupted rs now rows) ≡ has_job key rows
unfolding finish_interrupted
has_job-finish_interrupted key [] now rows = refl
has_job-finish_interrupted key (r ∷ rs) now rows =
    has_job-finish_interrupted key rs now (finish_job (interrupted r) now rows)
    ∙ has_job-finish_job key (interrupted r) now rows

-- A job at the end of the table.
has_job-append :
    (key : String) (rows : List JobRow) (x : JobRow)
    → has_job key rows ≡ true
    → has_job key (rows ++ x ∷ []) ≡ true
unfolding find_job
has_job-append key [] x h = cc
has_job-append key (y ∷ ys) x h = elim (Bool-cases (str_eq y.action_key key)) [
  | inl here ↦ rw (find_job, here) refl
  | inr away ↦ rw (find_job, away) (has_job-append key ys x (sym (rw (find_job, away) refl) ∙ h))
]

has_job-last :
    (key : String) (rows : List JobRow) (x : JobRow)
    → str_eq x.action_key key ≡ true
    → has_job key (rows ++ x ∷ []) ≡ true
unfolding find_job
has_job-last key [] x h = rw (find_job, h) refl
has_job-last key (y ∷ ys) x h = elim (Bool-cases (str_eq y.action_key key)) [
  | inl here ↦ rw (find_job, here) refl
  | inr away ↦ rw (find_job, away) (has_job-last key ys x h)
]

module _ (digest : String → String) (key : String) where
  -- No call removes a job.
  job_call-has_job :
      (call : JobCall) (now : ℕ) (rows : List JobRow)
      → has_job key rows ≡ true
      → has_job key (job_call digest call now rows) ≡ true
  unfolding job_call claim recover_jobs
  job_call-has_job (claim_call cycle action job_id) now rows h =
      elim (Option-cases (find_job (key_of_action digest cycle action) rows)) [
        | inl nothing ↦ rw (job_call, claim, nothing) (has_job-append key rows _ h)
        | inr (row, there) ↦ rw (job_call, claim, there) h
      ]
  job_call-has_job (finish_call r) now rows h = has_job-finish_job key r now rows ∙ h
  job_call-has_job recover_call now rows h =
      has_job-finish_interrupted key (running_results rows) now rows ∙ h

  -- A job that is there is not started.
  has_job-is_start :
      (call : JobCall) (now : ℕ) (rows : List JobRow)
      → has_job key rows ≡ true
      → is_start digest key call now rows ≡ false
  unfolding is_start claim
  has_job-is_start (claim_call cycle action job_id) now rows h =
      let own = key_of_action digest cycle action in
      elim (Bool-cases (str_eq own key)) [
        | inr other ↦ rw (other) refl
        | inl mine ↦
            let same : has_job own rows ≡ true =
              ap (λ k. has_job k rows) ((eq_iff own key).0 mine) ∙ h in
            elim (Option-cases (find_job own rows)) [
              | inl nothing ↦ absurd (ground (arith, sym (ap is_present nothing) ∙ same))
              | inr (row, there) ↦ elim (Bool-cases (str_eq row.request action.payload)) [
                | inl agrees ↦ rw (mine, claim, there, agrees) refl
                | inr differs ↦ rw (mine, claim, there, differs) refl
              ]
            ]
      ]
  has_job-is_start (finish_call r) now rows h = refl
  has_job-is_start recover_call now rows h = refl

  -- A job that is started is there.
  is_start-has_job :
      (call : JobCall) (now : ℕ) (rows : List JobRow)
      → is_start digest key call now rows ≡ true
      → has_job key (job_call digest call now rows) ≡ true
  unfolding is_start claim job_call
  is_start-has_job (claim_call cycle action job_id) now rows h =
      let own = key_of_action digest cycle action in
      let (mine, created) = (&&_iff (str_eq own key) _).0 h in
      elim (Option-cases (find_job own rows)) [
        | inl nothing ↦ rw (job_call, claim, nothing) (has_job-last key rows _ mine)
        | inr (row, there) ↦
            rw (job_call, claim, there)
              (ap (λ k. has_job k rows) (sym ((eq_iff own key).0 mine)) ∙ ap is_present there)
      ]
  is_start-has_job (finish_call r) now rows h = absurd (ground (arith, h))
  is_start-has_job recover_call now rows h = absurd (ground (arith, h))

  has_job-starts :
      (calls : List (JobCall × ℕ)) (rows : List JobRow)
      → has_job key rows ≡ true
      → starts digest key calls rows ≡ 0
  unfolding starts
  has_job-starts [] rows h = refl
  has_job-starts ((call, now) ∷ calls) rows h = ground (
    arith,
    has_job-is_start call now rows h,
    has_job-starts calls (job_call digest call now rows) (job_call-has_job call now rows h),
  )

  -- From any table, whatever calls of `claim`, `finish` and `recover` follow in any order, with any
  -- retries and restarts between them, the action of a key is started at most once while nothing is
  -- pruned, and not at all if the table has its job already.
  pub starts_once :
      (calls : List (JobCall × ℕ)) (rows : List JobRow)
      → (starts digest key calls rows ≤ 1)
        × (has_job key rows ≡ true → starts digest key calls rows ≡ 0)
  unfolding starts
  starts_once [] rows = (omega arith, λ h. refl)
  starts_once ((call, now) ∷ calls) rows = (
    elim (Bool-cases (is_start digest key call now rows)) [
      | inl begun ↦ ground (
        arith,
        begun,
        has_job-starts calls (job_call digest call now rows) (is_start-has_job call now rows begun),
      )
      | inr not_begun ↦
          ground (arith, not_begun, (starts_once calls (job_call digest call now rows)).0)
    ],
    λ h. has_job-starts ((call, now) ∷ calls) rows h,
  )
