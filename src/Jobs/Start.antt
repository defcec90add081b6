-- ===== src/Jobs/Start.antt =====
-- `ShellJobs.start` of xauusd/bits_jobs.py up to the worker's thread. The validation of an action, the
-- JSON text of one and the search for secrets are parameters.
use xauusd.Prelude.{
  ℕ, String, ◌≤◌, ◌≡◌, refl, Bool, true, false, not, if◌then◌else◌, List, [], ◌∷◌, ◌++◌, arith, ltb,
  Bool-cases, Option-cases, inl, inr,
}
use xauusd.Jobs.Store.{JobRow, Action, Claim, claim, find_job, key_of_action}

-- The fields of an action that the start reads, and the rest of it.
pub record ShellAction : Type 0 where
  pub id : String
  pub timeout_sec : ℕ
  pub rest : String

pub data StartError : Type 0 where
  executor_stopping invalid_action sensitive_command : StartError

pub data Started : Type 0 where
  refused : StartError → Started
  answered : Claim → Started

abbrev pub max_shell_timeout_seconds : ℕ
max_shell_timeout_seconds = 1200

abbrev pub clamp : ShellAction → ShellAction
clamp a =
    if ltb max_shell_timeout_seconds a.timeout_sec
    then record a { timeout_sec = max_shell_timeout_seconds }
    else a

-- What `start` is given: the digest, the validation, the JSON text and the test for secrets.
pub record ShellTools : Type 0 where
  pub digest : String → String
  pub validates : ShellAction → Bool
  pub canonical_json : ShellAction → String
  pub unsafe : String → Bool

module _ (tools : ShellTools) where
  abbrev pub text_of : ShellAction → Action
  text_of a = record { id = a.id; payload = tools.canonical_json a }

  unfoldable pub start_job :
      Bool → String → ShellAction → String → ℕ → List JobRow → Started × List JobRow
  start_job is_cancelled cycle a job_id now rows =
      if is_cancelled
      then (refused executor_stopping, rows)
      else if not (tools.validates a)
      then (refused invalid_action, rows)
      else if tools.unsafe (tools.canonical_json a)
      then (refused sensitive_command, rows)
      else (let (answer, rows') = claim tools.digest cycle (text_of (clamp a)) job_id now rows in
          (answered answer, rows'))

  clamp_timeout : (a : ShellAction) → (clamp a).timeout_sec ≤ max_shell_timeout_seconds
  clamp_timeout a = elim (Bool-cases (ltb max_shell_timeout_seconds a.timeout_sec)) [
    | inl over ↦ rw (over) (omega arith)
    | inr under ↦ rw (under) (ground (arith, under))
  ]

  -- What a start may do to the table: nothing, or one more job at its end, of an action that is safe and
  -- valid, written with a time limit of no more than the ceiling, by a shell that is not stopping.
  pub data IsStart (is_cancelled : Bool) (a : ShellAction) (rows : List JobRow)
      : List JobRow → Type 0 where
    unchanged : IsStart is_cancelled a rows rows
    added :
        (row : JobRow) (written : ShellAction)
        → row.request ≡ tools.canonical_json written
        → written.timeout_sec ≤ max_shell_timeout_seconds
        → written.id ≡ a.id
        → tools.validates a ≡ true
        → tools.unsafe (tools.canonical_json a) ≡ false
        → is_cancelled ≡ false
        → IsStart is_cancelled a rows (rows ++ row ∷ [])

  clamp_id : (a : ShellAction) → (clamp a).id ≡ a.id
  clamp_id a = elim (Bool-cases (ltb max_shell_timeout_seconds a.timeout_sec)) [
    | inl over ↦ rw (over) refl
    | inr under ↦ rw (under) refl
  ]

  -- A start leaves the table of jobs as it is, or adds one job at its end, and then the shell is not
  -- stopping, the action is valid and its text shows no secret, and what the job records is an
  -- action of the same id whose time limit is at most 1200 seconds.
  pub start_job-IsStart :
      (is_cancelled : Bool) (cycle : String) (a : ShellAction) (job_id : String) (now : ℕ)
      (rows : List JobRow)
      → IsStart is_cancelled a rows (start_job is_cancelled cycle a job_id now rows).1
  unfolding start_job claim
  start_job-IsStart true cycle a job_id now rows = unchanged
  start_job-IsStart false cycle a job_id now rows = elim (Bool-cases (tools.validates a)) [
    | inr bad ↦ rw (start_job, bad) unchanged
    | inl good ↦ elim (Bool-cases (tools.unsafe (tools.canonical_json a))) [
      | inl secret ↦ rw (start_job, good, secret) unchanged
      | inr safe ↦
          elim (Option-cases
            (find_job (key_of_action tools.digest cycle (text_of (clamp a))) rows)) [
              | inl new ↦
                  rw (start_job, good, safe, claim, new)
                    (added _ (clamp a) refl (clamp_timeout a) (clamp_id a) good safe refl)
              | inr (row, old) ↦ rw (start_job, good, safe, claim, old) unchanged
            ]
    ]
  ]
