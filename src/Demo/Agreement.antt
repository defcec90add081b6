-- ===== src/Demo/Agreement.antt =====
-- What a verified exposure means, position by position.
use xauusd.Prelude.{
  ℕ, String, ◌≡◌, subst, sym, ap, ◌∙◌, Bool, true, false, ◌&&◌, ◌==◌, Option, none, some, List, [],
  ◌∷◌, all, &&_iff, Bool-cases, Option-cases, inl, inr, arith,
}
use xauusd.Prelude.Int.{ℤ, pos, ◌+ℤ◌, eq_ℤ, eq_ℤ-eq, +ℤ_zero, zero_+ℤ, +ℤ_assoc, +ℤ_comm}
use xauusd.Demo.State.{DemoAccount, RequestRow, Position, Snapshot}
use xauusd.Demo.Adapter.{is_some_number}
use xauusd.Demo.Net.{position_net, fill_net}
use xauusd.Demo.Tally.{position_net-fill_net}
use xauusd.Demo.Exposure.{
  Volumes, Tally, tally_of, without_zeros, agrees, or_zero, volume_of, total, signed_volume,
  same_volumes, is_verified_position, positions_of,
}

-- The signed volume of a list of the broker's positions.
abbrev pub net_volume : List Position → ℤ
net_volume [] = pos 0
net_volume (p ∷ ps) = signed_volume (is_some_number 1 p.side) (or_zero p.volume) +ℤ net_volume ps

abbrev is_entry : Volumes → ℕ × ℤ → Bool
is_entry e x = elim (volume_of x.0 e) [ none ↦ false | some u ↦ eq_ℤ u x.1 ]

total-positions_of :
    (account : DemoAccount) (ps : List Position) (before after : Volumes)
    → positions_of account ps before ≡ some after
    → total after ≡ total before +ℤ net_volume ps
unfolding positions_of total
total-positions_of account [] before after h =
    let same : before ≡ after = ground (arith, h) in
    subst (λ d. total d ≡ total before +ℤ pos 0) same (sym (+ℤ_zero (total before)))
total-positions_of account (p ∷ ps) before after h =
    elim (Bool-cases (is_verified_position account p before)) [
      | inr bad ↦ absurd (ground (arith, bad))
      | inl good ↦
          let v = signed_volume (is_some_number 1 p.side) (or_zero p.volume) in
          let rest : positions_of account ps ((or_zero p.position_id, v) ∷ before) ≡ some after =
            ground (arith, h, good) in
          total-positions_of account ps ((or_zero p.position_id, v) ∷ before) after rest
          ∙ (ap (λ t. t +ℤ net_volume ps) (+ℤ_comm v (total before))
              ∙ +ℤ_assoc (total before) v (net_volume ps))
    ]

entry_value :
    (o : Option ℤ) (v : ℤ) → (elim o [ none ↦ false | some u ↦ eq_ℤ u v ]) ≡ true → o ≡ some v
entry_value none v h = absurd (ground (arith, h))
entry_value (some u) v h = ap some (eq_ℤ-eq u v h)

volume_of-all :
    (k : ℕ) (v : ℤ) (d e : Volumes)
    → volume_of k d ≡ some v
    → all (is_entry e) d ≡ true
    → volume_of k e ≡ some v
unfolding volume_of
volume_of-all k v [] e found h = absurd (ground arith)
volume_of-all k v ((j, u) ∷ d) e found h = elim (Bool-cases (j == k)) [
  | inl here ↦
      let is_k : j ≡ k = ground (arith, here) in
      let is_v : u ≡ v = ground (arith, found, here) in
      let entered : is_entry e (k, v) ≡ true =
        subst (λ i. is_entry e (i, v) ≡ true) is_k
          (subst (λ w. is_entry e (j, w) ≡ true) is_v ((&&_iff (is_entry e (j, u)) _).0 h).0) in
      entry_value (volume_of k e) v entered
  | inr there ↦ volume_of-all k v d e (ground (arith, found, there)) (ground (arith, h))
]

-- Equal dictionaries hold the same volume at every key.
same_volumes-volume_of :
    (d e : Volumes) → same_volumes d e ≡ true → (k : ℕ) → volume_of k d ≡ volume_of k e
same_volumes-volume_of d e h k =
    let (there, back) = (&&_iff (all (is_entry e) d) (all (is_entry d) e)).0 h in
    elim (Option-cases (volume_of k d)) [
      | inr (v, found) ↦ found ∙ sym (volume_of-all k v d e found there)
      | inl nothing ↦ elim (Option-cases (volume_of k e)) [
        | inl neither ↦ nothing ∙ sym neither
        | inr (v, found) ↦ volume_of-all k v e d found back ∙ sym found
      ]
    ]

-- At every position id, the volumes of the broker's positions and those of the accepted fills on record
-- add up to the same; and all the positions add up to the paper account's volume.
pub record IsExposed (account : DemoAccount) (rows : List (String × RequestRow)) (s : Snapshot)
    (expected : ℤ) : Type 0 where
  pub fills : Tally
  pub are_counted : tally_of account rows ([], []) ≡ some fills
  pub held : Volumes
  pub are_listed : positions_of account s.positions [] ≡ some held
  pub are_equal : (k : ℕ) → position_net k s.positions ≡ fill_net k rows
  pub is_expected : net_volume s.positions ≡ expected

pub agrees-IsExposed :
    (account : DemoAccount) (rows : List (String × RequestRow)) (s : Snapshot) (expected : ℤ)
    → agrees expected (tally_of account rows ([], [])) (positions_of account s.positions []) ≡ true
    → IsExposed account rows s expected
unfolding total
agrees-IsExposed account rows s expected h = elim (Option-cases (tally_of account rows ([], []))) [
  | inl uncounted ↦ absurd (ground (arith, h, uncounted))
  | inr ((volumes, deals), counted) ↦ elim (Option-cases (positions_of account s.positions [])) [
    | inl unlisted ↦ absurd (ground (arith, h, counted, unlisted))
    | inr (held, listed) ↦
        let agreed : (same_volumes held (without_zeros volumes) && eq_ℤ (total held) expected)
            ≡ true =
          subst (λ o. agrees expected (some (volumes, deals)) o ≡ true) listed
            (subst (λ o. agrees expected o (positions_of account s.positions []) ≡ true) counted
              h) in
        let (same, sum) =
          (&&_iff (same_volumes held (without_zeros volumes)) (eq_ℤ (total held) expected)).0
            agreed in
        record {
          fills = (volumes, deals);
          are_counted = counted;
          held = held;
          are_listed = listed;
          are_equal = λ k.
              position_net-fill_net account rows s.positions (volumes, deals) held k counted listed
                (same_volumes-volume_of held (without_zeros volumes) same k);
          is_expected =
              sym (zero_+ℤ (net_volume s.positions))
              ∙ (sym (total-positions_of account s.positions [] held listed)
                  ∙ eq_ℤ-eq (total held) expected sum);
        }
  ]
]
