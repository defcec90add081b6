-- ===== src/Prelude/Text.antt =====
-- Texts: equality, Python's `str.strip` test for a blank text, and dictionaries keyed by texts.
use Prim.Native.Nat.{ℕ}
use Prim.Native.Char.{code}
use Prim.Native.String.{String}
use mathlib.Core.Path.{◌≡◌}
use mathlib.Core.Bool.{Bool, true, ◌&&◌, ◌||◌}
use mathlib.Core.List.{List, [], ◌∷◌, ◌++◌}
use mathlib.Core.Option.{Option, none, some}
use native.Mathlib.Omega.{arith}
use text.Mathlib.Text.{◌==◌ as same_text}
use text.Mathlib.TextPositions.{eq_refl}
use xauusd.Prelude.Tests.{leb, ◌==◌, if◌then◌else◌}

abbrev pub str_eq : String → String → Bool
str_eq = same_text

-- The characters that `str.strip` removes.
abbrev pub is_space : ℕ → Bool
is_space c =
    (leb 9 c && leb c 13)
    || (leb 28 c && leb c 32)
    || c == 133
    || c == 160
    || c == 5760
    || (leb 8192 c && leb c 8202)
    || c == 8232
    || c == 8233
    || c == 8239
    || c == 8287
    || c == 12288

-- `not text.strip()`
unfoldable pub is_blank : String → Bool
is_blank String.[] = true
is_blank (String.◌∷◌ c s) = is_space (code c) && is_blank s

module _ {ℓ} {V : Type ℓ} where
  unfoldable pub lookup : String → List (String × V) → Option V
  lookup k [] = none
  lookup k ((j, v) ∷ d) = if same_text j k then some v else lookup k d

  -- A row put under a key that the table does not hold yet.
  pub lookup-append_new :
      (k : String) (v : V) (d : List (String × V))
      → lookup k d ≡ none
      → lookup k (d ++ (k, v) ∷ []) ≡ some v
  unfolding lookup
  lookup-append_new k v [] h = simp eq_refl
  lookup-append_new k v ((j, w) ∷ d) h = ground (arith, lookup-append_new k v d)

  -- Rows added at the end leave what is found alone.
  pub lookup-append_old :
      (k : String) (v : V) (d e : List (String × V))
      → lookup k d ≡ some v
      → lookup k (d ++ e) ≡ some v
  unfolding lookup
  lookup-append_old k v [] e h = cc
  lookup-append_old k v ((j, w) ∷ d) e h = ground (arith, lookup-append_old k v d e)
