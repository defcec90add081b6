-- ===== src/Canary/Source.antt =====
-- `_pending_transition` and the state of `read`, over the signals of the bars, which the signal
-- generator makes. An instant is a number of microseconds.
use xauusd.Prelude.{
  ℕ, zero, suc, ◌-◌, Bool, true, false, not, ◌&&◌, if◌then◌else◌, Option, none, some, List, [], ◌∷◌,
  ltb, leb, ◌==◌, length,
}

-- -1, 0 and 1.
pub data BarSignal : Type 0 where
  sell flat buy : BarSignal

pub record BarValue : Type 0 where
  pub time : ℕ
  pub signal : BarSignal

abbrev pub is_same : BarSignal → BarSignal → Bool
is_same BarSignal.sell BarSignal.sell = true
is_same BarSignal.flat BarSignal.flat = true
is_same BarSignal.buy BarSignal.buy = true
is_same _ _ = false

-- `values[(values != 0) & (values != previous)]`
unfoldable pub transitions : BarSignal → List BarValue → List BarValue
transitions previous [] = []
transitions previous (x ∷ xs) =
    let rest = transitions x.signal xs in
    if not (is_same x.signal BarSignal.flat) && not (is_same x.signal previous)
    then x ∷ rest
    else rest

unfoldable pub last_value : List BarValue → Option BarValue
last_value [] = none
last_value (x ∷ xs) = elim (last_value xs) [ none ↦ some x | some y ↦ some y ]

abbrev pub first_value : List BarValue → Option BarValue
first_value [] = none
first_value (x ∷ xs) = some x

unfoldable pub values_if : (BarValue → Bool) → List BarValue → List BarValue
values_if test [] = []
values_if test (x ∷ xs) = let rest = values_if test xs in if test x then x ∷ rest else rest

unfoldable pub drop_values : ℕ → List BarValue → List BarValue
drop_values zero xs = xs
drop_values (suc k) [] = []
drop_values (suc k) (x ∷ xs) = drop_values k xs

-- `window.iloc[-max_backlog_bars:]`
abbrev pub last_values : ℕ → List BarValue → List BarValue
last_values k xs = drop_values (length xs - k) xs

-- The transition of a cold start, which is that of the newest bar or none.
abbrev pub if_newest : Option BarValue → Option BarValue → Option BarValue
if_newest none newest = none
if_newest (some t) none = none
if_newest (some t) (some v) = if t.time == v.time then some t else none

-- The last transition from the oldest bar on that may still be acted on.
abbrev pub from_oldest : List BarValue → Option BarValue → Option BarValue
from_oldest ts none = none
from_oldest ts (some oldest) = last_value (values_if (λ t. leb oldest.time t.time) ts)

unfoldable pub pending_transition : ℕ → Option ℕ → List BarValue → Option BarValue
pending_transition max_backlog_bars none values =
    if_newest (last_value (transitions BarSignal.flat values)) (last_value values)
pending_transition max_backlog_bars (some last_observed) values =
    from_oldest (transitions BarSignal.flat values) (
      first_value (last_values max_backlog_bars (values_if (λ v. ltb last_observed v.time) values)))

-- `last_observed_bar_time` after a read; without signals a read returns before it.
abbrev pub observed_after : Option ℕ → List BarValue → Option ℕ
observed_after last values = elim (last_value values) [ none ↦ last | some v ↦ some v.time ]

-- The transitions that reads one after another emit.
unfoldable pub emitted : ℕ → Option ℕ → List (List BarValue) → List BarValue
emitted max_backlog_bars last [] = []
emitted max_backlog_bars last (values ∷ reads) =
    let rest = emitted max_backlog_bars (observed_after last values) reads in
    elim (pending_transition max_backlog_bars last values) [ none ↦ rest | some t ↦ t ∷ rest ]
