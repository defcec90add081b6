-- ===== src/Paper/Once.antt =====
-- Idempotency: what the table of decisions promises across calls.
use xauusd.Prelude.{
  ℕ, String, ◌≡◌, ◌≢◌, refl, sym, ap, ◌∙◌, List, [], ◌∷◌, ◌++◌, arith, All, none, lookup,
  lookup-append_new, lookup-append_old, Option-cases, inl, inr,
}
use xauusd.Number.{Number}
use xauusd.Paper.State.{Fill, PaperState, PaperDecision, Reply, default_state}
use xauusd.Paper.Account.{Desk, mark, entry}
use xauusd.Paper.Store.{PaperDb, empty_db}
use xauusd.Paper.Decided.{
  Decided, not_admitted, limited, filled, decide-Decided, Observed, observe-Observed, Observed-mark,
}
use xauusd.Paper.Calls.{Call, call, calls, current}
use xauusd.Paper.Steps.{Step, keeps, decides, observes, starts, stops, resumes, call-Step}
use xauusd.Paper.Replay.{mark-holding, fill-replay}

-- The ids of a ledger are pairwise different.
abbrev pub IsDistinct : {F : Type 0} → List (Fill F) → Type 0
IsDistinct [] = Unit
IsDistinct (f ∷ fs) = All (λ g. g.decision_id ≢ f.decision_id) fs × IsDistinct fs

-- Every fill has its row in the table of decisions.
abbrev pub IsRecorded : {F : Type 0} → List (String × Reply F) → List (Fill F) → Type 0
IsRecorded decisions = All (λ f. lookup f.decision_id decisions ≢ none)

module _ {F : Type 0} where
  All-append :
      (P : Fill F → Type 0) (fs : List (Fill F)) (f : Fill F)
      → All P fs
      → P f
      → All P (fs ++ f ∷ [])
  All-append P [] f h p = (p, tt)
  All-append P (g ∷ gs) f h p = (h.0, All-append P gs f h.1 p)

  -- A fill under an id that the table does not hold.
  new_id :
      (decisions : List (String × Reply F)) (fs : List (Fill F)) (id : String)
      → lookup id decisions ≡ none
      → IsRecorded decisions fs
      → All (λ g. g.decision_id ≢ id) fs
  new_id decisions [] id new h = tt
  new_id decisions (g ∷ gs) id new h =
      (λ same. h.0 (ap (λ k. lookup k decisions) same ∙ new), new_id decisions gs id new h.1)

  IsDistinct-append :
      (fs : List (Fill F)) (f : Fill F)
      → IsDistinct fs
      → All (λ g. g.decision_id ≢ f.decision_id) fs
      → IsDistinct (fs ++ f ∷ [])
  IsDistinct-append [] f h new = (tt, tt)
  IsDistinct-append (g ∷ gs) f h new =
      (All-append _ gs f h.0 (λ same. new.0 (sym same)), IsDistinct-append gs f h.1 new.1)

  lookup-grown :
      (id : String) (decisions more : List (String × Reply F))
      → lookup id decisions ≢ none
      → lookup id (decisions ++ more) ≢ none
  lookup-grown id decisions more h e = elim (Option-cases (lookup id decisions)) [
    | inl new ↦ h new
    | inr (reply, old) ↦ cc (lookup-append_old id reply decisions more old)
  ]

  IsRecorded-grown :
      (decisions more : List (String × Reply F)) (fs : List (Fill F))
      → IsRecorded decisions fs
      → IsRecorded (decisions ++ more) fs
  IsRecorded-grown decisions more [] h = tt
  IsRecorded-grown decisions more (f ∷ fs) h =
      (lookup-grown f.decision_id decisions more h.0, IsRecorded-grown decisions more fs h.1)

-- The ledger against the table.
pub record IsOnce {F : Type 0} (decisions : List (String × Reply F)) (ledger : List (Fill F))
    : Type 0 where
  pub distinct : IsDistinct ledger
  pub recorded : IsRecorded decisions ledger

module _ {F : Type 0} where
  -- The same rows, under equal names.
  IsOnce-same :
      {decisions decisions' : List (String × Reply F)} {ledger ledger' : List (Fill F)}
      → decisions' ≡ decisions
      → ledger' ≡ ledger
      → IsOnce decisions ledger
      → IsOnce decisions' ledger'
  IsOnce-same e e' h = rw (e, e') h

  IsOnce-grown :
      (decisions more : List (String × Reply F)) (ledger : List (Fill F))
      → IsOnce decisions ledger
      → IsOnce (decisions ++ more) ledger
  IsOnce-grown decisions more ledger h = record {
    distinct = h.distinct;
    recorded = IsRecorded-grown decisions more ledger h.recorded;
  }

  -- A fill and its row are added together.
  IsOnce-filled :
      (decisions : List (String × Reply F)) (ledger : List (Fill F)) (f : Fill F) (reply : Reply F)
      → lookup f.decision_id decisions ≡ none
      → IsOnce decisions ledger
      → IsOnce (decisions ++ (f.decision_id, reply) ∷ []) (ledger ++ f ∷ [])
  IsOnce-filled decisions ledger f reply new h = record {
    distinct =
        IsDistinct-append ledger f h.distinct
          (new_id decisions ledger f.decision_id new h.recorded);
    recorded =
        All-append _ ledger f (IsRecorded-grown decisions _ ledger h.recorded)
          (λ e. cc (lookup-append_new f.decision_id reply decisions new));
  }

module _ {F : Type 0} ⦃n : Number F⦄ (desk : Desk F) (initial_cash : F) where
  -- What a decision does to the ledger.
  decide-ledger :
      (d : PaperDecision F) (now : ℕ) (reply : Reply F) (s s' : PaperState F)
      (decisions : List (String × Reply F))
      → Decided desk initial_cash d now s reply s'
      → lookup d.decision_id decisions ≡ none
      → IsOnce decisions s.ledger
      → IsOnce (decisions ++ (d.decision_id, reply) ∷ []) s'.ledger
  decide-ledger d now reply s s' decisions (not_admitted reason e same _) new h =
      rw same (IsOnce-grown decisions _ s.ledger h)
  decide-ledger d now reply s s' decisions (limited reason e within same _) new h =
      rw (same, (mark-holding s d.price now).1) (IsOnce-grown decisions _ s.ledger h)
  decide-ledger d now reply s s' decisions (filled e within made _) new h =
      rw ((fill-replay (mark s d.price now) s' d now made).0, (mark-holding s d.price now).1)
        (IsOnce-filled decisions s.ledger (entry (mark s d.price now) d now) reply new h)

  observe-ledger :
      (price : F) (now : ℕ) (reply : Reply F) (s s' : PaperState F)
      → Observed desk initial_cash price now s reply s'
      → s'.ledger ≡ s.ledger
  observe-ledger price now reply s s' o =
      ground
        (arith, mark-holding s price now, Observed-mark desk initial_cash price now reply s s' o)

  Step-IsOnce :
      {c : Call F} (db db' : PaperDb F)
      → Step desk initial_cash db db' c
      → IsOnce db.decisions (current initial_cash db).ledger
      → IsOnce db'.decisions (current initial_cash db').ledger
  Step-IsOnce db db' (keeps k) h =
      IsOnce-same k.decisions (ap {A = PaperState F} (λ s. s.ledger) k.same) h
  Step-IsOnce db db' (decides {d = d} {now = now} reply new ran) h = IsOnce-same ran.recorded refl (
      decide-ledger d now reply _ _ db.decisions
        (decide-Decided desk initial_cash d now reply _ _ ran.moved) new h)
  Step-IsOnce db db' (observes {price = price} {now = now} reply new ran) h =
      IsOnce-same ran.recorded
        (observe-ledger price now reply _ _
          (observe-Observed desk initial_cash price now reply _ _ ran.moved))
        (IsOnce-grown db.decisions _ _ h)
  Step-IsOnce db db' (starts _ moved) h =
      IsOnce-same moved.decisions (ap {A = PaperState F} (λ s. s.ledger) moved.set) h
  Step-IsOnce db db' (stops _ moved) h =
      IsOnce-same moved.decisions (ap {A = PaperState F} (λ s. s.ledger) moved.set) h
  Step-IsOnce db db' (resumes _ moved) h =
      IsOnce-same moved.decisions (ap {A = PaperState F} (λ s. s.ledger) moved.set) h

  IsOnce-calls :
      (cs : List (Call F)) (db : PaperDb F)
      → IsOnce db.decisions (current initial_cash db).ledger
      → let db' = calls desk initial_cash cs db in
        IsOnce db'.decisions (current initial_cash db').ledger
  unfolding calls
  IsOnce-calls [] db h = h
  IsOnce-calls (c ∷ cs) db h =
      IsOnce-calls cs (call desk initial_cash c db)
        (Step-IsOnce db (call desk initial_cash c db) (call-Step desk initial_cash c db) h)

  -- From an empty database, after any calls in any order, no decision id has been filled twice, and
  -- every fill of the ledger has its row in the table of decisions.
  pub fills-IsOnce :
      (cs : List (Call F))
      → let db = calls desk initial_cash cs empty_db in
        IsOnce db.decisions (current initial_cash db).ledger
  fills-IsOnce cs =
      IsOnce-calls cs empty_db
        (unfold current default_state in (record { distinct = tt; recorded = tt }))
