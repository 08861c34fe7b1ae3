-- ===== src/Prelude/Maps.antt =====
-- Maps with text keys as association lists: the `HashMap`, `IndexMap` and `serde_json::Map` of the
-- source. `insert` replaces in place or appends; the first entry of a key is the one that counts.
use Prim.Native.String.{String}
use mathlib.Core.Path.{◌≡◌, refl}
use mathlib.Core.Bool.{Bool, false}
use mathlib.Core.List.{List, [], ◌∷◌}
use mathlib.Core.Option.{Option, none, some}
use native.Mathlib.Omega.{arith}
use text.Mathlib.Text.{◌==◌}
use text.Mathlib.TextEquality.{eq_iff}
use shaperail.Prelude.Tests.{if◌then◌else◌, is_some}
use shaperail.Prelude.Lists.{contains}

module _ {ℓ} {V : Type ℓ} where
  abbrev pub lookup : String → List (String × V) → Option V
  lookup key [] = none
  lookup key ((at, v) ∷ entries) = if at == key then some v else lookup key entries

  abbrev pub insert : String → V → List (String × V) → List (String × V)
  insert key v [] = (key, v) ∷ []
  insert key v ((at, x) ∷ entries) =
      if at == key then (at, v) ∷ entries else (at, x) ∷ insert key v entries

  abbrev pub remove : String → List (String × V) → List (String × V)
  remove key [] = []
  remove key ((at, x) ∷ entries) =
      if at == key then remove key entries else (at, x) ∷ remove key entries

  abbrev pub keys : List (String × V) → List String
  keys [] = []
  keys ((key, v) ∷ entries) = key ∷ keys entries

  abbrev pub contains_key : String → List (String × V) → Bool
  contains_key key entries = is_some (lookup key entries)

  pub lookup-insert :
      (key at : String) (v : V) (entries : List (String × V))
      → lookup at (insert key v entries) ≡ (if key == at then some v else lookup at entries)
  lookup-insert key at v [] = refl
  lookup-insert key at v ((i, x) ∷ entries) =
      ground (arith, eq_iff key at, eq_iff i key, eq_iff i at, lookup-insert key at v entries)

  pub lookup-remove :
      (key at : String) (entries : List (String × V))
      → lookup at (remove key entries) ≡ (if key == at then none else lookup at entries)
  lookup-remove key at [] = ground arith
  lookup-remove key at ((i, x) ∷ entries) =
      ground (arith, eq_iff key at, eq_iff i key, eq_iff i at, lookup-remove key at entries)

  pub lookup_not_in :
      (key : String) (entries : List (String × V))
      → contains (keys entries) key ≡ false
      → lookup key entries ≡ none
  lookup_not_in key [] h = refl
  lookup_not_in key ((at, x) ∷ entries) h = ground (arith, lookup_not_in key entries)

  pub contains-keys :
      (key : String) (entries : List (String × V))
      → contains (keys entries) key ≡ contains_key key entries
  contains-keys key [] = refl
  contains-keys key ((at, x) ∷ entries) = ground (arith, contains-keys key entries)
