-- ===== src/Demo/Fills.antt =====
-- An accepted order: what the broker's receipt says.
use text.Mathlib.TextEquality.{eq_iff}
use xauusd.Prelude.{
  ℕ, String, ◌≡◌, refl, ap, Bool, true, false, not, Option, none, some, [], ◌∷◌, ◌++◌, lookup,
  arith, &&_iff, ==_iff, ◌<◌,
}
use xauusd.Demo.State.{DemoOrder, Receipt, DemoOutcome, broker_client_order_id}
use xauusd.Demo.Store.{DemoDb, load}
use xauusd.Demo.Adapter.{
  DemoAdapter, World, done, request_of, judge, submit, execute, has_error, is_fill, is_some_number,
  is_some_positive, is_some_text,
}
use xauusd.Demo.Fresh.{Fresh, switched_off, collided, submitted, execute-Fresh}

module _ (adapter : DemoAdapter) where
  judge_accepted :
      (order : DemoOrder) (r : Option Receipt) (db : DemoDb)
      → (judge adapter order r db).0.accepted ≡ true
      → (receipt : Receipt) × (r ≡ some receipt) × (is_fill adapter.digest order receipt ≡ true)
  unfolding judge
  judge_accepted order none db h = absurd (ground arith)
  judge_accepted order (some r) db h = (r, refl, ground arith)

  -- What the broker's receipt of a filled order says, and the submission that it answers.
  pub record IsFilled (order : DemoOrder) (w w' : World) : Type 0 where
    pub was_running : (load w.db).0.stopped ≡ false
    pub receipt : Receipt
    pub answered : adapter.send w.sent (request_of adapter order) ≡ some receipt
    pub is_last : w'.sent ≡ w.sent ++ request_of adapter order ∷ []
    pub no_error : has_error receipt.last ≡ false
    pub is_final : receipt.last.execution_type ≡ some 3
    pub in_full : receipt.last.filled_volume ≡ some order.volume
    pub order_id : (k : ℕ) × (receipt.last.order_id ≡ some k) × (0 < k)
    pub position_id : (k : ℕ) × (receipt.last.position_id ≡ some k) × (0 < k)
    pub same_id :
        receipt.last.broker_client_order_id
        ≡ some (broker_client_order_id adapter.digest order.request_id)

  not-true : (b : Bool) → not b ≡ true → b ≡ false
  not-true true h = absurd (ground arith)
  not-true false h = refl

  number_is : (k : ℕ) (v : Option ℕ) → is_some_number k v ≡ true → v ≡ some k
  number_is k none h = absurd (ground arith)
  number_is k (some j) h = ap some ((==_iff j k).0 h)

  positive_is : (v : Option ℕ) → is_some_positive v ≡ true → (k : ℕ) × (v ≡ some k) × (0 < k)
  positive_is none h = absurd (ground arith)
  positive_is (some j) h = (j, refl, ground arith)

  text_is : (t : String) (v : Option String) → is_some_text t v ≡ true → v ≡ some t
  text_is t none h = absurd (ground arith)
  text_is t (some s) h = ap some ((eq_iff s t).0 h)

  fill_fields :
      (order : DemoOrder) (w w' : World) (r : Receipt)
      → (load w.db).0.stopped ≡ false
      → adapter.send w.sent (request_of adapter order) ≡ some r
      → w'.sent ≡ w.sent ++ request_of adapter order ∷ []
      → is_fill adapter.digest order r ≡ true
      → IsFilled order w w'
  unfolding is_fill
  fill_fields order w w' r on answered is_last h =
      let (final, h₁) = (&&_iff _ _).0 h in
      let (clean, h₂) = (&&_iff _ _).0 h₁ in
      let (full, h₃) = (&&_iff _ _).0 h₂ in
      let (ordered, h₄) = (&&_iff _ _).0 h₃ in
      let (positioned, same) = (&&_iff _ _).0 h₄ in
      record {
        was_running = on;
        receipt = r;
        answered = answered;
        is_last = is_last;
        no_error = not-true (has_error r.last) clean;
        is_final = number_is 3 r.last.execution_type final;
        in_full = number_is order.volume r.last.filled_volume full;
        order_id = positive_is r.last.order_id ordered;
        position_id = positive_is r.last.position_id positioned;
        same_id =
            text_is (broker_client_order_id adapter.digest order.request_id)
              r.last.broker_client_order_id same;
      }

  Fresh-IsFilled :
      (order : DemoOrder) (w w' : World) (o : DemoOutcome)
      → Fresh adapter order w o w'
      → o.accepted ≡ true
      → IsFilled order w w'
  unfolding submit
  Fresh-IsFilled order w _ _ (switched_off off) said = absurd (ground arith)
  Fresh-IsFilled order w _ _ collided said = absurd (ground arith)
  Fresh-IsFilled order w _ _ (submitted db on reserved) said =
      let (r, answered, full) =
        judge_accepted order (adapter.send w.sent (request_of adapter order)) db said in
      fill_fields order w _ r on answered refl full

  -- If the execution of a new order is accepted, then the kill switch was off, the order was submitted
  -- and the broker's receipt shows, without an error, a final fill of the whole volume under the
  -- order's own broker id, with positive order and position ids.
  pub accepted-IsFilled :
      (order : DemoOrder) (w w' : World) (o : DemoOutcome)
      → execute adapter order w ≡ (done o, w')
      → lookup order.request_id w.db.requests ≡ none
      → o.accepted ≡ true
      → IsFilled order w w'
  accepted-IsFilled order w w' o h new said =
      Fresh-IsFilled order w w' o (execute-Fresh adapter order w w' o h new) said
