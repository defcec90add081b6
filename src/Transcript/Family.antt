-- ===== src/Transcript/Family.antt =====
-- That a process closes interrupted runs of its own family only.
use text.Mathlib.Text.{◌==◌ as str_eq}
use text.Mathlib.TextEquality.{eq_iff, Char-path}
use Prim.Native.Char.{Char, code}
use xauusd.Prelude.{
  ℕ, String, ◌≡◌, ◌≢◌, refl, sym, ap, ◌∙◌, true, false, not, none, some, List, [], ◌∷◌, map, arith,
  ◌==◌, ==_iff, Bool-cases, Option-cases, inl, inr, &&_iff, subst,
}
use xauusd.Transcript.Store.{
  AgentRun, RunStatus, means_running, family_of, run_family, begins, is_orphan, close_run,
  reconcile_running_runs,
}

begins-cons :
    (c d : Char) (p s : String)
    → begins (String.◌∷◌ c p) (String.◌∷◌ d s) ≡ true
    → (d ≡ c) × (begins p s ≡ true)
unfolding begins
begins-cons c d p s h =
    let (same, rest) = (&&_iff (code d == code c) (begins p s)).0 h in
    (Char-path d c ((==_iff (code d) (code c)).0 same), rest)

begins-head :
    (c : Char) (p s : String) → begins p s ≡ true → begins (String.◌∷◌ c p) (String.◌∷◌ c s) ≡ true
unfolding begins
begins-head c p s h = ground (arith, h)

family_of-underscore :
    (c : Char) (s : String)
    → (code c == 95) ≡ true
    → family_of (String.◌∷◌ c s) ≡ some (String.◌∷◌ c String.[])
unfolding family_of
family_of-underscore c s h = rw (family_of, h) refl

family_of-none :
    (c : Char) (s : String)
    → (code c == 95) ≡ false
    → family_of s ≡ none
    → family_of (String.◌∷◌ c s) ≡ none
unfolding family_of
family_of-none c s h k = rw (family_of, h, k) refl

family_of-some :
    (c : Char) (s t : String)
    → (code c == 95) ≡ false
    → family_of s ≡ some t
    → family_of (String.◌∷◌ c s) ≡ some (String.◌∷◌ c t)
unfolding family_of
family_of-some c s t h k = rw (family_of, h, k) refl

Option-path : {A : Type 0} (x y : A) → some x ≡ some y → x ≡ y
Option-path x y h = cc

-- A run id that begins with an underscore's family.
underscore-family_of :
    (c : Char) (s : String)
    → (code c == 95) ≡ true
    → begins (String.◌∷◌ c String.[]) s ≡ true
    → family_of s ≡ some (String.◌∷◌ c String.[])
unfolding begins
underscore-family_of c String.[] under k = absurd (ground (arith, k))
underscore-family_of c (String.◌∷◌ d s) under k =
    let same = (begins-cons c d String.[] s k).0 in
    subst (λ x. family_of (String.◌∷◌ x s) ≡ some (String.◌∷◌ c String.[])) (sym same)
      (family_of-underscore c s under)

-- A run id that begins with a longer family, if those that begin with its tail are of its tail.
longer-family_of :
    (c : Char) (t s : String)
    → ((s : String) → begins t s ≡ true → family_of s ≡ some t)
    → (code c == 95) ≡ false
    → begins (String.◌∷◌ c t) s ≡ true
    → family_of s ≡ some (String.◌∷◌ c t)
unfolding begins
longer-family_of c t String.[] tail other k = absurd (ground (arith, k))
longer-family_of c t (String.◌∷◌ d s) tail other k =
    let (same, rest) = begins-cons c d t s k in
    subst (λ x. family_of (String.◌∷◌ x s) ≡ some (String.◌∷◌ c t)) (sym same)
      (family_of-some c s t other (tail s rest))

-- A run id that begins with a family is of this family.
begins-family_of :
    (e s p : String) → family_of e ≡ some p → begins p s ≡ true → family_of s ≡ some p
unfolding family_of
begins-family_of String.[] s p f h = absurd (ground (arith, f))
begins-family_of (String.◌∷◌ c e) s p f h = elim (Bool-cases (code c == 95)) [
  | inl under ↦
      let is_p =
        Option-path (String.◌∷◌ c String.[]) p (sym (family_of-underscore c e under) ∙ f) in
      subst (λ q. family_of s ≡ some q) is_p
        (underscore-family_of c s under (subst (λ q. begins q s ≡ true) (sym is_p) h))
  | inr other ↦ elim (Option-cases (family_of e)) [
    | inl nothing ↦ absurd (ground (arith, sym (family_of-none c e other nothing) ∙ f))
    | inr (t, there) ↦
        let is_p = Option-path (String.◌∷◌ c t) p (sym (family_of-some c e t other there) ∙ f) in
        subst (λ q. family_of s ≡ some q) is_p
          (longer-family_of c t s (λ s' k. begins-family_of e s' t there k) other
            (subst (λ q. begins q s ≡ true) (sym is_p) h))
  ]
]

-- A run id begins with its own family.
begins-own : (s f : String) → family_of s ≡ some f → begins f s ≡ true
unfolding family_of begins
begins-own String.[] f h = absurd (ground (arith, h))
begins-own (String.◌∷◌ c s) f h = elim (Bool-cases (code c == 95)) [
  | inl under ↦
      let is_f =
        Option-path (String.◌∷◌ c String.[]) f (sym (family_of-underscore c s under) ∙ h) in
      subst (λ q. begins q (String.◌∷◌ c s) ≡ true) is_f (begins-head c String.[] s refl)
  | inr other ↦ elim (Option-cases (family_of s)) [
    | inl nothing ↦ absurd (ground (arith, sym (family_of-none c s other nothing) ∙ h))
    | inr (t, there) ↦
        let is_f = Option-path (String.◌∷◌ c t) f (sym (family_of-some c s t other there) ∙ h) in
        subst (λ q. begins q (String.◌∷◌ c s) ≡ true) is_f
          (begins-head c t s (begins-own s t there))
  ]
]

family_lem : (s f : String) → family_of s ≡ some f → run_family s ≡ f
family_lem s f h = ap (λ o. elim o [ none ↦ s | some g ↦ g ]) h

-- What a reconciliation by the run `excluding` does to a row: a running row of its family but its own
-- is stopped, and every other row stays as it is.
abbrev pub IsScoped : String → ℕ → AgentRun → AgentRun → Type 0
IsScoped excluding now x y =
    (means_running x.status ≡ true
      → str_eq x.run_id excluding ≡ false
      → family_of x.run_id ≡ family_of excluding
      → y ≡ record x { status = RunStatus.stopped; finished_at = some now })
    × (family_of x.run_id ≢ family_of excluding → y ≡ x)
    × (str_eq x.run_id excluding ≡ true → y ≡ x)
    × (means_running x.status ≡ false → y ≡ x)

-- The rows one by one.
abbrev pub AreScoped : String → ℕ → List AgentRun → List AgentRun → Type 0
AreScoped excluding now [] [] = Unit
AreScoped excluding now [] (y ∷ ys) = ⊥
AreScoped excluding now (x ∷ xs) [] = ⊥
AreScoped excluding now (x ∷ xs) (y ∷ ys) =
    IsScoped excluding now x y × AreScoped excluding now xs ys

close_run-closed :
    (excluding : String) (now : ℕ) (x : AgentRun)
    → is_orphan excluding x ≡ true
    → close_run excluding now x ≡ record x { status = RunStatus.stopped; finished_at = some now }
unfolding close_run
close_run-closed excluding now x h = rw (close_run, h) refl

close_run-kept :
    (excluding : String) (now : ℕ) (x : AgentRun)
    → is_orphan excluding x ≡ false
    → close_run excluding now x ≡ x
unfolding close_run
close_run-kept excluding now x h = rw (close_run, h) refl

-- A row that is closed is a running one of the family, and not the caller's.
is_orphan-lem :
    (excluding f : String) (x : AgentRun)
    → family_of excluding ≡ some f
    → is_orphan excluding x ≡ true
    → (means_running x.status ≡ true)
      × (str_eq x.run_id excluding ≡ false)
      × (family_of x.run_id ≡ family_of excluding)
is_orphan-lem excluding f x known h =
    let (on, rest) = (&&_iff (means_running x.status) _).0 h in
    let (other, starts) =
      (&&_iff (not (str_eq x.run_id excluding)) (begins (run_family excluding) x.run_id)).0 rest in
    let family : run_family excluding ≡ f = family_lem excluding f known in
    (
      on,
      ground (arith, other),
      begins-family_of excluding x.run_id f known
            (subst (λ q. begins q x.run_id ≡ true) family starts)
          ∙ sym known,
    )

-- A running row of the family that is not the caller's is closed.
family-is_orphan :
    (excluding f : String) (x : AgentRun)
    → family_of excluding ≡ some f
    → means_running x.status ≡ true
    → str_eq x.run_id excluding ≡ false
    → family_of x.run_id ≡ family_of excluding
    → is_orphan excluding x ≡ true
family-is_orphan excluding f x known on other same =
    let starts : begins (run_family excluding) x.run_id ≡ true =
      subst (λ q. begins q x.run_id ≡ true) (sym (family_lem excluding f known))
        (begins-own x.run_id f (same ∙ known)) in
    ground (arith, on, other, starts)

close_run-IsScoped :
    (excluding f : String) (now : ℕ) (x : AgentRun)
    → family_of excluding ≡ some f
    → IsScoped excluding now x (close_run excluding now x)
close_run-IsScoped excluding f now x known = elim (Bool-cases (is_orphan excluding x)) [
  | inr kept ↦
      let same = close_run-kept excluding now x kept in
      (
        (λ on other family.
            absurd (ground (arith, kept, family-is_orphan excluding f x known on other family))),
        (λ e. same),
        (λ e. same),
        (λ e. same),
      )
  | inl closed ↦
      let (on, other, family) = is_orphan-lem excluding f x known closed in
      (
        (λ on other family. close_run-closed excluding now x closed),
        (λ e. absurd (e family)),
        (λ e. absurd (ground (arith, e, other))),
        (λ e. absurd (ground (arith, on, e))),
      )
]

map-AreScoped :
    (excluding f : String) (now : ℕ) (xs : List AgentRun)
    → family_of excluding ≡ some f
    → AreScoped excluding now xs (map (close_run excluding now) xs)
map-AreScoped excluding f now [] known = tt
map-AreScoped excluding f now (x ∷ xs) known =
    (close_run-IsScoped excluding f now x known, map-AreScoped excluding f now xs known)

blank_family : (s f : String) → family_of s ≡ some f → str_eq s "" ≡ false
unfolding family_of
blank_family s f h = elim (Bool-cases (str_eq s "")) [
  | inr named ↦ named
  | inl blank ↦
      let nothing : family_of s ≡ none = ap family_of ((eq_iff s "").0 blank) in
      absurd (ground (arith, sym nothing ∙ h))
]

-- If the caller's run id has an underscore, then a reconciliation stops every other running run of the
-- caller's family, and leaves the caller's run, the runs of other families and those that are not
-- running as they are.
pub reconcile_running_runs-AreScoped :
    (excluding f : String) (now : ℕ) (runs : List AgentRun)
    → family_of excluding ≡ some f
    → AreScoped excluding now runs (reconcile_running_runs excluding now runs)
unfolding reconcile_running_runs
reconcile_running_runs-AreScoped excluding f now runs known =
    rw (reconcile_running_runs, blank_family excluding f known)
      (map-AreScoped excluding f now runs known)
