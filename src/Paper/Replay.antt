-- ===== src/Paper/Replay.antt =====
-- The ledger as the account's history: what the fills alone make of the opening account.
use xauusd.Prelude.{ℕ, ◌≡◌, refl, sym, ap, ◌∙◌, List, [], ◌∷◌, ◌++◌, arith}
use xauusd.Number.{Number, of_ℕ, add, sub, mul}
use xauusd.Paper.State.{
  Fill, PaperState, PaperDecision, Reply, Result, returned, raised, ◌>>=◌, >>=-eq-returned,
  default_state,
}
use xauusd.Paper.Account.{Desk, mark, signed, next_average, entry, booked, fill}
use xauusd.Paper.Store.{empty_db}
use xauusd.Paper.Decided.{
  Decided, not_admitted, limited, filled, decide-Decided, Observed, observe-Observed, Observed-mark,
}
use xauusd.Paper.Calls.{Call, calls, current}
use xauusd.Paper.Invariants.{IsKept, calls_keep}

abbrev to_result : {A : Type 0} → A → Result A
to_result a = returned a

>>=-returned : {A : Type 0} (m : Result A) → (m >>= to_result) ≡ m
>>=-returned (returned a) = refl
>>=-returned (raised e) = refl

-- The three numbers that fills determine.
pub record Holding (F : Type 0) : Type 0 where
  pub cash : F
  pub position : F
  pub average_entry_price : F

abbrev pub holding : {F : Type 0} → PaperState F → Holding F
holding s = record {
  cash = s.cash;
  position = s.position;
  average_entry_price = s.average_entry_price;
}

module _ {F : Type 0} ⦃n : Number F⦄ where
  abbrev pub opening : F → Holding F
  opening initial_cash = record {
    cash = initial_cash;
    position = of_ℕ 0;
    average_entry_price = of_ℕ 0;
  }

  -- One ledger entry applied: its cost leaves the cash, its quantity enters the position.
  unfoldable pub replay_one : Holding F → Fill F → Result (Holding F)
  replay_one h f =
      let quantity = signed f.side f.quantity in
      next_average h.position h.average_entry_price quantity f.price >>= λ average.
      returned (record {
        cash = sub h.cash (mul quantity f.price);
        position = add h.position quantity;
        average_entry_price = average;
      })

  unfoldable pub replay : Holding F → List (Fill F) → Result (Holding F)
  replay h [] = returned h
  replay h (f ∷ fs) = replay_one h f >>= λ h'. replay h' fs

  replay-append :
      (h h' : Holding F) (fs : List (Fill F)) (f : Fill F)
      → replay h fs ≡ returned h'
      → replay h (fs ++ f ∷ []) ≡ replay_one h' f
  unfolding replay
  replay-append h h' [] f e = let same : h ≡ h' = cc in rw (← same) (>>=-returned (replay_one h f))
  replay-append h h' (g ∷ gs) f e =
      let (h₁, one, rest) = >>=-eq-returned (replay_one h g) _ e in
      rw one (replay-append h₁ h' gs f rest)

  -- An observation moves neither the ledger nor what the fills determine.
  pub mark-holding :
      (s : PaperState F) (price : F) (now : ℕ)
      → (holding (mark s price now) ≡ holding s) × ((mark s price now).ledger ≡ s.ledger)
  unfolding mark
  mark-holding s price now = ground arith

  -- A fill that returns has booked the decision at some average price and marked the result.
  pub fill_lem :
      (s s' : PaperState F) (d : PaperDecision F) (now : ℕ)
      → fill s d now ≡ returned s'
      → (average : F) × (next_average s.position s.average_entry_price
            (signed d.side d.quantity)
            d.price
          ≡ returned average)
        × (s' ≡ mark (booked s d now average) d.price now)
  unfolding fill
  fill_lem s s' d now h =
      let (average, found, rest) =
        >>=-eq-returned
          (next_average s.position s.average_entry_price (signed d.side d.quantity) d.price) _ h in
      (average, found, cc)

  -- The entry that a fill writes, applied to the holding before it, gives the holding after it.
  pub fill-replay :
      (s s' : PaperState F) (d : PaperDecision F) (now : ℕ)
      → fill s d now ≡ returned s'
      → (s'.ledger ≡ s.ledger ++ entry s d now ∷ [])
        × (replay_one (holding s) (entry s d now) ≡ returned (holding s'))
  unfolding replay_one
  fill-replay s s' d now h =
      let (average, found, made) = fill_lem s s' d now h in
      let (held, kept) = mark-holding (booked s d now average) d.price now in (cc, rw found (cc))

  -- What the ledger says is what the account says.
  abbrev pub IsReplay : F → PaperState F → Type 0
  IsReplay initial_cash s = replay (opening initial_cash) s.ledger ≡ returned (holding s)

  IsReplay-mark :
      (initial_cash : F) (s : PaperState F) (price : F) (now : ℕ)
      → IsReplay initial_cash s
      → IsReplay initial_cash (mark s price now)
  IsReplay-mark initial_cash s price now h =
      let (held, kept) = mark-holding s price now in rw kept h ∙ ap returned (sym held)

  IsReplay-fill :
      (initial_cash : F) (s s' : PaperState F) (d : PaperDecision F) (now : ℕ)
      → fill s d now ≡ returned s'
      → IsReplay initial_cash s
      → IsReplay initial_cash s'
  IsReplay-fill initial_cash s s' d now e h =
      let (grown, one) = fill-replay s s' d now e in
      rw grown (replay-append (opening initial_cash) (holding s) s.ledger (entry s d now) h ∙ one)

  module _ (desk : Desk F) (initial_cash : F) where
    decide-IsReplay :
        (d : PaperDecision F) (now : ℕ) (reply : Reply F) (s s' : PaperState F)
        → Decided desk initial_cash d now s reply s'
        → IsReplay initial_cash s
        → IsReplay initial_cash s'
    decide-IsReplay d now reply s s' (not_admitted reason e same _) h = rw same h
    decide-IsReplay d now reply s s' (limited reason e within same _) h =
        rw same (IsReplay-mark initial_cash s d.price now h)
    decide-IsReplay d now reply s s' (filled e within made _) h =
        IsReplay-fill initial_cash (mark s d.price now) s' d now made
          (IsReplay-mark initial_cash s d.price now h)

    observe-IsReplay :
        (price : F) (now : ℕ) (reply : Reply F) (s s' : PaperState F)
        → Observed desk initial_cash price now s reply s'
        → IsReplay initial_cash s
        → IsReplay initial_cash s'
    observe-IsReplay price now reply s s' o h =
        let marked = IsReplay-mark initial_cash s price now h in
        ground (arith, Observed-mark desk initial_cash price now reply s s' o, marked)

    IsReplay-kept : IsKept desk initial_cash (IsReplay initial_cash)
    IsReplay-kept = record {
      decide_keeps = λ d now reply s s' h e.
          decide-IsReplay d now reply s s' (decide-Decided desk initial_cash d now reply s s' e) h;
      observe_keeps = λ price now reply s s' h e.
          observe-IsReplay price now reply s s'
            (observe-Observed desk initial_cash price now reply s s' e) h;
      switch_keeps = λ stopped reason s h. h;
    }

    -- From an empty database, after any calls in any order, the account's cash, position and average
    -- entry price are what replaying its ledger from the opening cash gives, to the last bit.
    pub ledger_replays_account :
        (cs : List (Call F))
        → let s = current initial_cash (calls desk initial_cash cs empty_db) in
          replay (opening initial_cash) s.ledger ≡ returned (holding s)
    unfolding current default_state replay
    ledger_replays_account cs =
        calls_keep IsReplay-kept cs empty_db (unfold current default_state replay in refl)
