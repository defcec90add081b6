-- ===== src/Demo/Known.antt =====
-- The broker ids of the table of requests, and what reservations and outcomes do to them.
use text.Mathlib.Text.{◌==◌ as str_eq}
use text.Mathlib.TextEquality.{eq_iff}
use xauusd.Prelude.{
  String, ◌≡◌, ◌≢◌, refl, sym, ◌∙◌, inl, inr, Bool, true, false, ◌||◌, none, some, List, [], ◌∷◌,
  ◌++◌, map, lookup, All, Bool-cases, arith,
}
use xauusd.Demo.State.{RequestData, DemoOutcome, RequestRow, Status}
use xauusd.Demo.Store.{DemoDb, request_reserved, load, stop, start, reserve, finish_row}
use xauusd.Demo.Adapter.{broker_id_of, collides}

abbrev pub Differs : RequestData → RequestData → Type 0
Differs r s = s.broker_client_order_id ≢ r.broker_client_order_id

abbrev pub AreDistinct : List RequestData → Type 0
AreDistinct [] = Unit
AreDistinct (r ∷ rs) = All (Differs r) rs × AreDistinct rs

All-append_one :
    {A : Type 0} (P : A → Type 0) (xs : List A) (x : A) → All P xs → P x → All P (xs ++ x ∷ [])
All-append_one P [] x h p = (p, tt)
All-append_one P (y ∷ ys) x h p = (h.0, All-append_one P ys x h.1 p)

pub All-map :
    {A : Type 0} (P Q : A → Type 0) → ((a : A) → P a → Q a) → (xs : List A) → All P xs → All Q xs
All-map P Q f [] h = tt
All-map P Q f (x ∷ xs) h = (f x h.0, All-map P Q f xs h.1)

AreDistinct-append_one :
    (rs : List RequestData) (r : RequestData)
    → AreDistinct rs
    → All (Differs r) rs
    → AreDistinct (rs ++ r ∷ [])
AreDistinct-append_one [] r h k = (tt, tt)
AreDistinct-append_one (s ∷ rs) r h k =
    (All-append_one (Differs s) rs r h.0 (λ e. k.0 (sym e)), AreDistinct-append_one rs r h.1 k.1)

-- Whether a row of the table has the given broker id.
pub has_broker_id : String → List (String × RequestRow) → Bool
has_broker_id b [] = false
has_broker_id b ((id, row) ∷ rows) = str_eq (broker_id_of id row) b || has_broker_id b rows

has_broker_id-append :
    (b : String) (rows more : List (String × RequestRow))
    → has_broker_id b rows ≡ true
    → has_broker_id b (rows ++ more) ≡ true
unfolding has_broker_id
has_broker_id-append b [] more h = cc
has_broker_id-append b ((id, row) ∷ rows) more h = ground (arith, has_broker_id-append b rows more)

has_broker_id-append_last :
    (id b : String) (row : RequestRow) (rows : List (String × RequestRow))
    → broker_id_of id row ≡ b
    → has_broker_id b (rows ++ (id, row) ∷ []) ≡ true
unfolding has_broker_id
has_broker_id-append_last id b row [] h = ground (arith, eq_iff (broker_id_of id row) b)
has_broker_id-append_last id b row ((i, r) ∷ rows) h =
    ground (arith, has_broker_id-append_last id b row rows h)

broker_id_of-finish_row :
    (id : String) (o : DemoOutcome) (x : String × RequestRow)
    → let y = finish_row id o x in broker_id_of y.0 y.1 ≡ broker_id_of x.0 x.1
broker_id_of-finish_row id o x = elim (Bool-cases (str_eq x.0 id)) [
  | inl h ↦ rw h refl
  | inr h ↦ rw h refl
]

-- Finishing a request changes no row's broker id.
has_broker_id-finish :
    (b id : String) (o : DemoOutcome) (rows : List (String × RequestRow))
    → has_broker_id b (map (finish_row id o) rows) ≡ has_broker_id b rows
unfolding has_broker_id
has_broker_id-finish b id o [] = refl
has_broker_id-finish b id o (x ∷ rows) =
    rw (broker_id_of-finish_row id o x, has_broker_id-finish b id o rows) refl

-- A new request id that collides with no other row has a new broker id.
pub fresh_broker_id :
    (id b : String) (rows : List (String × RequestRow))
    → collides id b rows ≡ false
    → lookup id rows ≡ none
    → has_broker_id b rows ≡ false
unfolding has_broker_id collides lookup
fresh_broker_id id b [] h k = refl
fresh_broker_id id b ((i, row) ∷ rows) h k = ground (arith, fresh_broker_id id b rows)

-- Requests are written by reservations and by outcomes alone.
pub load-requests : (db : DemoDb) → (load db).1.requests ≡ db.requests
unfolding load
load-requests db = ground arith

pub stop-requests : (reason : String) (db : DemoDb) → (stop reason db).requests ≡ db.requests
unfolding stop
stop-requests reason db = load-requests db

pub start-requests :
    (reason : String) (db db' : DemoDb) → start reason db ≡ some db' → db'.requests ≡ db.requests
unfolding start
start-requests reason db db' h = ground (arith, load-requests db)

abbrev pub IsKnown : List (String × RequestRow) → RequestData → Type 0
IsKnown rows r = (b : String) × (r.broker_client_order_id ≡ some b) × (has_broker_id b rows ≡ true)

-- Every submission has its row, and no two submissions have the same broker id.
pub record IsSafe (rows : List (String × RequestRow)) (sent : List RequestData) : Type 0 where
  pub known : All (IsKnown rows) sent
  pub distinct : AreDistinct sent

pub IsKnown-finish :
    (id : String) (o : DemoOutcome) (rows : List (String × RequestRow)) (r : RequestData)
    → IsKnown rows r
    → IsKnown (map (finish_row id o) rows) r
IsKnown-finish id o rows r (b, named, found) = (b, named, has_broker_id-finish b id o rows ∙ found)

IsKnown-append :
    (rows more : List (String × RequestRow)) (r : RequestData)
    → IsKnown rows r
    → IsKnown (rows ++ more) r
IsKnown-append rows more r (b, named, found) = (b, named, has_broker_id-append b rows more found)

IsKnown-Differs :
    (rows : List (String × RequestRow)) (r : RequestData) (b : String)
    → r.broker_client_order_id ≡ some b
    → has_broker_id b rows ≡ false
    → (s : RequestData) → IsKnown rows s
    → Differs r s
IsKnown-Differs rows r b named fresh s (c, named', found) e = absurd (cc)

-- One more submission, of a request whose broker id is new and whose row has just been added.
pub IsSafe-submit :
    (id b : String) (o : DemoOutcome) (row : RequestRow) (rows : List (String × RequestRow))
    (sent : List RequestData)
    → row.request.broker_client_order_id ≡ some b
    → has_broker_id b rows ≡ false
    → IsSafe rows sent
    → IsSafe (map (finish_row id o) (rows ++ (id, row) ∷ [])) (sent ++ row.request ∷ [])
IsSafe-submit id b o row rows sent named fresh safe =
    let after = rows ++ (id, row) ∷ [] in
    record {
      known =
          All-append_one (IsKnown (map (finish_row id o) after)) sent row.request
            (All-map (IsKnown rows) (IsKnown (map (finish_row id o) after))
              (λ r h. IsKnown-finish id o after r (IsKnown-append rows ((id, row) ∷ []) r h)) sent
              safe.known)
            (IsKnown-finish id o after row.request
              (b, named, has_broker_id-append_last id b row rows (rw named refl)));
      distinct = AreDistinct-append_one sent row.request safe.distinct (
          All-map (IsKnown rows) (Differs row.request)
            (IsKnown-Differs rows row.request b named fresh) sent safe.known);
    }

-- The two answers of a reservation.
abbrev pub reserved_row : RequestData → RequestRow
reserved_row request = record { request = request; status = Status.pending; outcome = none }

pub reserve_new :
    (id : String) (request : RequestData) (db : DemoDb)
    → lookup id db.requests ≡ none
    → reserve id request db ≡ (
      (true, none),
      record db {
        requests = db.requests ++ (id, reserved_row request) ∷ [];
        audit = db.audit ++ request_reserved id ∷ [];
      },
    )
unfolding reserve
reserve_new id request db new = rw (reserve, new) refl

pub reserve_old :
    (id : String) (request : RequestData) (db : DemoDb) (row : RequestRow)
    → lookup id db.requests ≡ some row
    → reserve id request db ≡ ((false, row.outcome), db)
unfolding reserve
reserve_old id request db row old = rw (reserve, old) refl
