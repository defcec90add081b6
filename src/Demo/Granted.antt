-- ===== src/Demo/Granted.antt =====
-- What stands behind an answer of the paper account that the coordinator takes for an acceptance.
use xauusd.Prelude.{
  ℕ, ◌≡◌, refl, sym, ap, ◌∙◌, true, false, ◌⊎◌, inl, inr, none, some, lookup, arith,
}
use xauusd.Number.{Number}
use xauusd.Paper.{
  Desk, PaperDecision, PaperDb, Response, unidentified, answered, Reply, evaluated, marked, Outcome,
  Result, returned, evaluate,
}
use xauusd.Paper.Store.{Answer}
use xauusd.Paper.Trading.{decide}
use xauusd.Paper.Calls.{current}
use xauusd.Paper.Changes.{RunCase, replays, fails, runs}
use xauusd.Paper.Idempotence.{answered_lem}
use xauusd.Paper.Gates.{IsCleared, accepted-IsCleared}
use xauusd.Demo.Coordinator.{verdict}

module _ {F : Type 0} ⦃n : Number F⦄ (desk : Desk F) (initial_cash : F) where
  -- The decision passed every gate of the paper account now, at its price, and was filled; or its id is
  -- one that the table holds an accepted result of, and then the paper account is as it was.
  abbrev pub IsGranted : PaperDecision F → ℕ → PaperDb F → PaperDb F → Type 0
  IsGranted d now db db' =
      ((lookup d.decision_id db.decisions ≡ none)
        × IsCleared desk initial_cash d now (current initial_cash db) (current initial_cash db'))
      ⊎ ((o : Outcome F) × (lookup d.decision_id db.decisions ≡ some (evaluated o))
          × (o.accepted ≡ true)
          × (db' ≡ db))

  returned_injective :
      (a b : Answer F) → ◌≡◌ {A = Result (Answer F)} (returned a) (returned b) → a ≡ b
  returned_injective a b h = ground (arith, h)

  accepted_reply :
      (r : Reply F)
      → (elim r [ evaluated o ↦ some o.accepted | marked m ↦ none ]) ≡ some true
      → (o : Outcome F) × (r ≡ evaluated o) × (o.accepted ≡ true)
  accepted_reply (evaluated o) h = (o, refl, ground (arith, h))
  accepted_reply (marked m) h = absurd (ground (arith, h))

  RunCase-IsGranted :
      (d : PaperDecision F) (now : ℕ) (db db' : PaperDb F) (o : Outcome F) (a : Answer F)
      → RunCase initial_cash d.decision_id (decide desk initial_cash d now) db (returned a) db'
      → evaluate desk initial_cash d now db ≡ (returned (answered a), db')
      → a.reply ≡ evaluated o
      → o.accepted ≡ true
      → IsGranted d now db db'
  RunCase-IsGranted d now db db' o a (replays reply old same kept) h is_o said =
      let is_reply : a.reply ≡ reply = ap (λ x. x.reply) (returned_injective a _ same) in
      inr (o, old ∙ ap some (sym is_reply ∙ is_o), said, kept)
  RunCase-IsGranted d now db db' o a (fails e new same kept) h is_o said =
      absurd (ground (arith, same))
  RunCase-IsGranted d now db db' o a (runs reply new same ran) h is_o said =
      let is_a = returned_injective a _ same in
      let is_fresh : a ≡ record { reply = evaluated o; replayed = false } =
        is_a
        ∙ ap {B = Answer F} (λ r. record { reply = r; replayed = false })
            (sym (ap (λ x. x.reply) is_a) ∙ is_o) in
      let fresh =
        h ∙ ap {B = Result (Response F) × PaperDb F} (λ x. (returned (answered x), db')) is_fresh in
      inl (new, accepted-IsCleared desk initial_cash d now db db' o fresh said)

  pub verdict-IsGranted :
      (d : PaperDecision F) (now : ℕ) (db db' : PaperDb F) (response : Response F)
      → evaluate desk initial_cash d now db ≡ (returned response, db')
      → verdict response ≡ some true
      → IsGranted d now db db'
  verdict-IsGranted d now db db' (unidentified id) h said = absurd (ground (arith, said))
  verdict-IsGranted d now db db' (answered a) h said =
      let (o, is_o, granted) = accepted_reply a.reply said in
      RunCase-IsGranted d now db db' o a (answered_lem desk initial_cash d now db db' a h).1 h is_o
        granted
