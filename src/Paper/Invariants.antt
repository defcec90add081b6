-- ===== src/Paper/Invariants.antt =====
-- The rule that carries a property of the state through every sequence of calls.
use xauusd.Prelude.{ℕ, String, ◌≡◌, sym, subst, Bool, List, [], ◌∷◌}
use xauusd.Number.{Number}
use xauusd.Paper.State.{PaperState, PaperDecision, Reply, returned}
use xauusd.Paper.Account.{Desk}
use xauusd.Paper.Store.{PaperDb}
use xauusd.Paper.Trading.{decide, observe}
use xauusd.Paper.Calls.{Call, call, calls, current}
use xauusd.Paper.Steps.{Step, keeps, decides, observes, starts, stops, resumes, call-Step}

-- What every transition of the state keeps.
pub record IsKept {F : Type 0} ⦃n : Number F⦄ (desk : Desk F) (initial_cash : F)
    (P : PaperState F → Type 0) : Type 0 where
  pub decide_keeps :
      (d : PaperDecision F) (now : ℕ) (reply : Reply F) (s s' : PaperState F)
      → P s
      → decide desk initial_cash d now s ≡ returned (reply, s')
      → P s'
  pub observe_keeps :
      (price : F) (now : ℕ) (reply : Reply F) (s s' : PaperState F)
      → P s
      → observe desk initial_cash price now s ≡ returned (reply, s')
      → P s'
  pub switch_keeps :
      (stopped : Bool) (reason : String) (s : PaperState F)
      → P s
      → P (record s { stopped = stopped; kill_switch_reason = reason })

module _ {F : Type 0} ⦃n : Number F⦄ {desk : Desk F} {initial_cash : F} {P : PaperState F → Type 0}
    (kept : IsKept desk initial_cash P) where
  Step-keeps :
      {c : Call F} (db db' : PaperDb F)
      → Step desk initial_cash db db' c
      → P (current initial_cash db)
      → P (current initial_cash db')
  Step-keeps db db' (keeps k) h = subst P (sym k.same) h
  Step-keeps db db' (decides {d = d} {now = now} reply _ ran) h =
      kept.decide_keeps d now reply _ _ h ran.moved
  Step-keeps db db' (observes {price = price} {now = now} reply _ ran) h =
      kept.observe_keeps price now reply _ _ h ran.moved
  Step-keeps db db' (starts _ moved) h = subst P (sym moved.set) (kept.switch_keeps _ _ _ h)
  Step-keeps db db' (stops _ moved) h = subst P (sym moved.set) (kept.switch_keeps _ _ _ h)
  Step-keeps db db' (resumes _ moved) h = subst P (sym moved.set) (kept.switch_keeps _ _ _ h)

  pub calls_keep :
      (cs : List (Call F)) (db : PaperDb F)
      → P (current initial_cash db)
      → P (current initial_cash (calls desk initial_cash cs db))
  unfolding calls
  calls_keep [] db h = h
  calls_keep (c ∷ cs) db h =
      calls_keep cs (call desk initial_cash c db)
        (Step-keeps db (call desk initial_cash c db) (call-Step desk initial_cash c db) h)
