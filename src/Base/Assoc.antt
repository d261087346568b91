-- ===== src/Base/Assoc.antt =====
-- `std::unordered_map<std::string, V>` as an association list.
use Prim.Native.String.{String}
use mathlib.Core.Path.{◌≡◌, refl}
use mathlib.Core.Logic.{◌≢◌}
use mathlib.Core.Bool.{Bool, true, false}
use mathlib.Core.List.{List, [], ◌∷◌}
use mathlib.Core.Option.{Option, none, some}
use native.Mathlib.Omega.{arith}
use text.Mathlib.Text.{◌==◌}
use text.Mathlib.TextEquality.{eq_iff}
use pfs.Base.Tests.{if◌then◌else◌}

abbrev pub str_eq : String → String → Bool
str_eq a b = a == b

pub str_eq-true : (a b : String) → str_eq a b ≡ true → a ≡ b
str_eq-true a b h = (eq_iff a b).0 h

pub str_eq_refl : (a : String) → str_eq a a ≡ true
str_eq_refl a = (eq_iff a a).1 refl

pub str_eq-false : (a b : String) → a ≢ b → str_eq a b ≡ false
str_eq-false a b h = ground (arith, eq_iff a b)

module _ {ℓ} {V : Type ℓ} where
  -- `find`
  unfoldable pub lookup : (key : String) → List (String × V) → Option V
  lookup key [] = none
  lookup key (entry ∷ rest) =
      let later = lookup key rest in if str_eq entry.0 key then some entry.1 else later

  -- `erase`, of every entry with the key; a map holds one
  unfoldable pub erase : (key : String) → List (String × V) → List (String × V)
  erase key [] = []
  erase key (entry ∷ rest) =
      let others = erase key rest in if str_eq entry.0 key then others else entry ∷ others

  -- `m[key] = value`
  unfoldable pub insert : (key : String) (value : V) → List (String × V) → List (String × V)
  insert key value [] = (key, value) ∷ []
  insert key value (entry ∷ rest) =
      let others = insert key value rest in
      if str_eq entry.0 key then (key, value) ∷ rest else entry ∷ others

  pub lookup-erase :
      (key name : String) (m : List (String × V))
      → lookup name (erase key m) ≡ (if str_eq key name then none else lookup name m)
  unfolding lookup erase
  lookup-erase key name [] = ground arith
  lookup-erase key name (entry ∷ rest) =
      let ih = lookup-erase key name rest in
      ground (arith, ih, eq_iff key name, eq_iff entry.0 key, eq_iff entry.0 name)

  pub lookup-insert :
      (key name : String) (value : V) (m : List (String × V))
      → lookup name (insert key value m) ≡ (if str_eq key name then some value else lookup name m)
  unfolding lookup insert
  lookup-insert key name value [] = refl
  lookup-insert key name value (entry ∷ rest) =
      let ih = lookup-insert key name value rest in
      ground (arith, ih, eq_iff key name, eq_iff entry.0 key, eq_iff entry.0 name)
