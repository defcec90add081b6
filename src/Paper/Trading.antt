-- ===== src/Paper/Trading.antt =====
-- The methods of `PaperTrading` and the restart policy (xauusd/paper_trading.py), as steps of the
-- store's database.
use xauusd.Prelude.{
  ℕ, String, Bool, true, false, not, ◌&&◌, if◌then◌else◌, Option, none, some, is_blank,
}
use text.Mathlib.Text.{◌==◌ as str_eq}
use xauusd.Number.{Number, sub, lt, le}
use xauusd.Session.{market_is_open, market_data_age_seconds, observation_is_future, is_beyond}
use xauusd.Paper.State.{
  PaperState, PaperDecision, Reason, MonitorStatus, Reply, evaluated, marked, Result, returned,
  raised, blank_reason, date_overflow, ◌>>=◌,
}
use xauusd.Paper.Account.{Desk, checked_div, is_positive, equity, mark, gate, fill, result}
use xauusd.Paper.Store.{PaperDb, Answer, run, set_kill_switch, state}

pub data Policy : Type 0 where
  running resume refuse : Policy

-- `KILL_SWITCH_AUTO_RESUME`
abbrev pub is_auto_resume : String → Bool
is_auto_resume reason = str_eq reason "missing_state"

unfoldable pub restart_policy : {F : Type 0} → PaperState F → Policy
restart_policy s =
    if not s.stopped
    then running
    else if is_auto_resume s.kill_switch_reason
    then resume
    else refuse

pub record Resumption : Type 0 where
  pub resumed : Bool
  pub already_running : Bool
  pub reason : String

pub data Response (F : Type 0) : Type 0 where
  -- A decision with a blank id never reaches the store.
  unidentified : String → Response F
  answered : Answer F → Response F

pub data Observation (F : Type 0) : Type 0 where
  invalid_price market_closed invalid_observation stale_data : Observation F
  observed : Answer F → Observation F

module _ {F : Type 0} ⦃n : Number F⦄ (desk : Desk F) (initial_cash : F) where
  -- What a filled decision returns.
  abbrev pub accept : PaperDecision F → PaperState F → Result (Reply F × PaperState F)
  accept d s = returned (evaluated (result true Reason.accepted d.decision_id s), s)

  -- The transition of `evaluate`, behind the gate's answer.
  unfoldable pub settle :
      PaperDecision F → ℕ → Option Reason × PaperState F → Result (Reply F × PaperState F)
  settle d now (some reason, s) = returned (evaluated (result false reason d.decision_id s), s)
  settle d now (none, s) = fill s d now >>= accept d

  -- The transition of `evaluate`.
  unfoldable pub decide : PaperDecision F → ℕ → PaperState F → Result (Reply F × PaperState F)
  decide d now s = gate desk s d now >>= settle d now

  unfoldable pub evaluate : PaperDecision F → ℕ → PaperDb F → Result (Response F) × PaperDb F
  evaluate d now db =
      if is_blank d.decision_id
      then (returned (unidentified d.decision_id), db)
      else (let (answer, db') = run initial_cash d.decision_id (decide d now) db in
          (answer >>= λ a. returned (answered a), db'))

  -- Whether a marked account has reached its daily loss or its drawdown limit.
  unfoldable pub breached : PaperState F → Result Bool
  unfolding equity
  breached s =
      if le desk.config.daily_loss_limit (sub s.day_start_equity (equity s))
      then returned true
      else (checked_div (sub s.high_water_equity (equity s)) s.high_water_equity >>= λ drawdown.
          returned (le desk.config.max_drawdown drawdown))

  -- The rest of a monitor's transition: the risk stop, and what it reports of the marked state.
  unfoldable pub react : F → PaperState F → Bool → Result (Reply F × PaperState F)
  unfolding equity
  react price s is_breached =
      let s' =
        if is_breached && not s.stopped
        then record s { stopped = true; kill_switch_reason = "risk_limit" }
        else s in
      returned (
        marked (record {
          status = if s'.stopped then MonitorStatus.stopped else MonitorStatus.ok;
          equity = equity s;
          position = s'.position;
          mark_price = price;
        }),
        s',
      )

  -- The transition of `monitor`.
  unfoldable pub observe : F → ℕ → PaperState F → Result (Reply F × PaperState F)
  observe price now s = let s' = mark s price now in breached s' >>= react price s'

  -- `monitor_key` is the text that the source builds of the observation's time and its price.
  unfoldable pub monitor :
      (ℕ → F → String) → F → ℕ → ℕ → PaperDb F → Result (Observation F) × PaperDb F
  monitor monitor_key price observed_at now db =
      if not (is_positive price)
      then (returned invalid_price, db)
      else if not (market_is_open desk.new_york now)
      then (returned market_closed, db)
      else if is_beyond observed_at now
      then (raised date_overflow, db)
      else if observation_is_future observed_at now
      then (returned invalid_observation, db)
      else if lt desk.config.max_market_data_age_seconds (market_data_age_seconds observed_at now)
      then (returned stale_data, db)
      else (let (answer, db') =
            run initial_cash (monitor_key observed_at price) (observe price now) db in
          (answer >>= λ a. returned (observed a), db'))

  unfoldable pub start : String → PaperDb F → Result (Unit {0}) × PaperDb F
  start reason db =
      if is_blank reason
      then (raised blank_reason, db)
      else set_kill_switch initial_cash false reason db

  unfoldable pub stop : String → PaperDb F → Result (Unit {0}) × PaperDb F
  stop reason db =
      if is_blank reason
      then (raised blank_reason, db)
      else set_kill_switch initial_cash true reason db

  -- The branches of `maybe_resume`, on the policy's answer and the stored reason.
  unfoldable pub resume_as : Policy → String → String → PaperDb F → Result Resumption × PaperDb F
  resume_as running prior reason db =
      (returned (record { resumed = true; already_running = true; reason = prior }), db)
  resume_as refuse prior reason db =
      (returned (record { resumed = false; already_running = false; reason = prior }), db)
  resume_as resume prior reason db =
      let (done, db') = set_kill_switch initial_cash false reason db in
      (
        done >>= λ _.
            returned (record { resumed = true; already_running = false; reason = reason }),
        db',
      )

  -- The rest of `maybe_resume`, once the state has been read.
  unfoldable pub resume_found :
      Result (PaperState F) → String → PaperDb F → Result Resumption × PaperDb F
  resume_found (raised e) reason db = (raised e, db)
  resume_found (returned s) reason db = resume_as (restart_policy s) s.kill_switch_reason reason db

  unfoldable pub maybe_resume : String → PaperDb F → Result Resumption × PaperDb F
  maybe_resume reason db =
      if is_blank reason
      then (raised blank_reason, db)
      else (let (found, db') = state initial_cash db in resume_found found reason db')
