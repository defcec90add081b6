-- ===== src/Transcript/Store.antt =====
-- The tables of the transcript, their methods and `_run_family`. An instant is a number of microseconds;
-- the table of steps is in the order of its ids. `Some run` in place of an exception.
use text.Mathlib.Text.{◌==◌ as str_eq}
use Prim.Native.Char.{code}
use xauusd.Prelude.{
  ℕ, String, zero, suc, ◌+◌, ◌-◌, Bool, true, false, not, ◌&&◌, ◌||◌, if◌then◌else◌, Option, none,
  some, List, [], ◌∷◌, ◌++◌, map, ltb, leb, ◌==◌, length,
}

pub data RunStatus : Type 0 where
  running completed stopped failed : RunStatus

pub record AgentRun : Type 0 where
  pub run_id : String
  pub status : RunStatus
  pub created_at : ℕ
  pub finished_at : Option ℕ

pub record Step : Type 0 where
  pub id : ℕ
  pub run_id : String
  pub tick : ℕ
  pub phase : String
  pub content : String
  pub occurred_at : ℕ

pub record TranscriptDb : Type 0 where
  pub runs : List AgentRun
  pub steps : List Step
  pub next_id : ℕ

abbrev pub means_running : RunStatus → Bool
means_running RunStatus.running = true
means_running _ = false

-- The text up to the first underscore and with it, if there is one.
unfoldable pub family_of : String → Option String
family_of String.[] = none
family_of (String.◌∷◌ c s) =
    let rest = family_of s in
    if code c == 95
    then some (String.◌∷◌ c String.[])
    else elim rest [ none ↦ none | some t ↦ some (String.◌∷◌ c t) ]

-- `_run_family`
abbrev pub run_family : String → String
run_family run_id = elim (family_of run_id) [ none ↦ run_id | some f ↦ f ]

-- `substr(run_id,1,len(family)) = family`
unfoldable pub begins : String → String → Bool
begins String.[] s = true
begins (String.◌∷◌ c p) String.[] = false
begins (String.◌∷◌ c p) (String.◌∷◌ d s) = code d == code c && begins p s

unfoldable pub has_run : String → List AgentRun → Bool
has_run id [] = false
has_run id (x ∷ xs) = str_eq x.run_id id || has_run id xs

-- Nothing where the source raises: the id is taken.
unfoldable pub start_run : String → ℕ → TranscriptDb → Option TranscriptDb
start_run run_id now db =
    if has_run run_id db.runs
    then none
    else some (record db {
      runs =
          db.runs
          ++ record {
            run_id = run_id;
            status = RunStatus.running;
            created_at = now;
            finished_at = none;
          }
            ∷ [];
    })

abbrev pub update_runs : (AgentRun → Bool) → (AgentRun → AgentRun) → List AgentRun → List AgentRun
update_runs test change runs = map (λ x. if test x then change x else x) runs

unfoldable pub finish_run : String → RunStatus → ℕ → TranscriptDb → TranscriptDb
finish_run run_id status now db = record db {
  runs =
      update_runs (λ x. str_eq x.run_id run_id && means_running x.status)
        (λ x. record x { status = status; finished_at = some now }) db.runs;
}

-- The foreign key of a step names a run.
unfoldable pub append_step :
    String → ℕ → String → String → ℕ → TranscriptDb → Option (ℕ × TranscriptDb)
append_step run_id tick phase content now db =
    if has_run run_id db.runs
    then some (
      db.next_id,
      record db {
        steps =
            db.steps
            ++ record {
              id = db.next_id;
              run_id = run_id;
              tick = tick;
              phase = phase;
              content = content;
              occurred_at = now;
            }
              ∷ [];
        next_id = db.next_id + 1;
      },
    )
    else none

-- Whether a row is an interrupted run of the caller's family.
abbrev pub is_orphan : String → AgentRun → Bool
is_orphan excluding x =
    means_running x.status
    && (not (str_eq x.run_id excluding) && begins (run_family excluding) x.run_id)

unfoldable pub close_run : String → ℕ → AgentRun → AgentRun
close_run excluding now x =
    if is_orphan excluding x
    then record x { status = RunStatus.stopped; finished_at = some now }
    else x

unfoldable pub reconcile_running_runs : String → ℕ → List AgentRun → List AgentRun
reconcile_running_runs excluding now runs =
    if str_eq excluding "" then runs else map (close_run excluding now) runs

unfoldable pub resume_run : String → List AgentRun → List AgentRun
resume_run run_id runs =
    update_runs (λ x. str_eq x.run_id run_id && not (means_running x.status))
      (λ x. record x { status = RunStatus.running; finished_at = none }) runs

-- A run into a list of runs from the newest to the oldest.
unfoldable pub insert_run : AgentRun → List AgentRun → List AgentRun
insert_run x [] = x ∷ []
insert_run x (y ∷ ys) =
    let rest = insert_run x ys in if ltb y.created_at x.created_at then x ∷ y ∷ ys else y ∷ rest

-- `ORDER BY created_at DESC`, where runs of one instant keep their order.
unfoldable pub newest_first : List AgentRun → List AgentRun → List AgentRun
newest_first [] sorted = sorted
newest_first (x ∷ xs) sorted = newest_first xs (insert_run x sorted)

unfoldable pub take_runs : ℕ → List AgentRun → List AgentRun
take_runs zero xs = []
take_runs (suc k) [] = []
take_runs (suc k) (x ∷ xs) = x ∷ take_runs k xs

-- `preserve_below_id > 0` adds `AND id > ?` to a deletion.
abbrev pub is_deletable : ℕ → Step → Bool
is_deletable preserve_below_id x = preserve_below_id == 0 || ltb preserve_below_id x.id

-- The deletion of the steps of all runs but the recent ones.
unfoldable pub delete_old_runs : List AgentRun → ℕ → List Step → List Step
delete_old_runs recent preserve_below_id [] = []
delete_old_runs recent preserve_below_id (x ∷ xs) =
    let rest = delete_old_runs recent preserve_below_id xs in
    if not (has_run x.run_id recent) && is_deletable preserve_below_id x then rest else x ∷ rest

-- The deletion among the first `k` steps, the oldest.
unfoldable pub delete_oldest_steps : ℕ → ℕ → List Step → List Step
delete_oldest_steps zero preserve_below_id xs = xs
delete_oldest_steps (suc k) preserve_below_id [] = []
delete_oldest_steps (suc k) preserve_below_id (x ∷ xs) =
    let rest = delete_oldest_steps k preserve_below_id xs in
    if is_deletable preserve_below_id x then rest else x ∷ rest

-- What `prune` reports and the steps that it leaves: of the runs that are not the newest all go, and
-- then the oldest of the rest. The source adds up the rowcounts of its deletions, which are these
-- differences of lengths.
unfoldable pub prune_steps : List AgentRun → ℕ → ℕ → List Step → (ℕ × ℕ) × List Step
prune_steps [] keep_steps preserve_below_id steps = ((0, 0), steps)
prune_steps (r ∷ rs) keep_steps preserve_below_id steps =
    let kept = delete_old_runs (r ∷ rs) preserve_below_id steps in
    let left =
      if leb (length kept) keep_steps
      then kept
      else delete_oldest_steps (length kept - keep_steps) preserve_below_id kept in
    ((length steps - length kept, length kept - length left), left)

unfoldable pub prune : ℕ → ℕ → ℕ → TranscriptDb → (ℕ × ℕ) × TranscriptDb
prune keep_runs keep_steps preserve_below_id db =
    let recent = take_runs keep_runs (newest_first db.runs []) in
    let (removed, left) = prune_steps recent keep_steps preserve_below_id db.steps in
    (removed, record db { steps = left })
