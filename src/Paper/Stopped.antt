-- ===== src/Paper/Stopped.antt =====
-- A stop that returns has stopped the account.
use xauusd.Prelude.{String, ◌≡◌, ap, true, arith, Bool-cases, inl, inr, is_blank}
use xauusd.Number.{Number}
use xauusd.Paper.State.{Result, returned, raised}
use xauusd.Paper.Account.{Desk}
use xauusd.Paper.Store.{PaperDb, transaction, switch, set_kill_switch}
use xauusd.Paper.Trading.{stop}
use xauusd.Paper.Calls.{current}
use xauusd.Paper.Steps.{switch-Switched}

pub transaction-eq_returned :
    {F A : Type 0} (db db' : PaperDb F) (a : A) (outcome : Result (A × PaperDb F))
    → transaction db outcome ≡ (returned a, db')
    → outcome ≡ returned (a, db')
transaction-eq_returned db db' a (returned (b, db₁)) h =
    ground (arith, ap (λ p. p.0) h, ap (λ p. p.1) h)
transaction-eq_returned db db' a (raised e) h = absurd (ground (arith, ap (λ p. p.0) h))

pub stop_returned :
    {F : Type 0} ⦃n : Number F⦄ (desk : Desk F) (initial_cash : F) (reason : String)
    (db db' : PaperDb F)
    → stop desk initial_cash reason db ≡ (returned tt, db')
    → (current initial_cash db').stopped ≡ true
unfolding stop set_kill_switch
stop_returned desk initial_cash reason db db' h = elim (Bool-cases (is_blank reason)) [
  | inl blank ↦ absurd (ground (arith, ap (λ p. p.0) h))
  | inr named ↦
      let moved =
        switch-Switched desk initial_cash true reason db db'
          (transaction-eq_returned db db' tt (switch initial_cash true reason db) (ground arith)) in
      ap (λ s. s.stopped) moved.set
]
