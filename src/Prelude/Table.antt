-- ===== src/Prelude/Table.antt =====
-- What the program uses of `HashMap<String, V>`: a list of entries, in the order in which the map
-- happens to iterate.
use mathlib.Core.Path.{◌≡◌, refl}
use mathlib.Core.Bool.{Bool, true}
use mathlib.Core.Option.{Option, none, some}
use mathlib.Core.List.{List, [], ◌∷◌}
use native.Mathlib.Omega.{arith}
use text.Mathlib.Text.{◌==◌ as str_eq}
use text.Mathlib.TextEquality.{eq_iff}
use Prim.Native.Nat.{◌+◌, ◌≤◌, ◌<◌}
use Prim.Native.String.{String}
use hlem_ssh.Prelude.Tests.{if◌then◌else◌, is_some}
use hlem_ssh.Prelude.Lists.{length, count_if}

abbrev pub Table {ℓ} : Type ℓ → Type ℓ
Table V = List (String × V)

module _ {ℓ} {V : Type ℓ} where
  -- `map.get(key).cloned()`
  unfoldable pub get : String → Table V → Option V
  get k [] = none
  get k ((j, v) ∷ m) = if str_eq j k then some v else get k m

  -- `map.remove(key)`, less its result
  unfoldable pub remove : String → Table V → Table V
  remove k [] = []
  remove k ((j, v) ∷ m) = let rest = remove k m in if str_eq j k then rest else (j, v) ∷ rest

  -- `map.insert(key, value)`: a key that is there keeps its place.
  unfoldable pub insert : String → V → Table V → Table V
  insert k v [] = (k, v) ∷ []
  insert k v ((j, w) ∷ m) = if str_eq j k then (k, v) ∷ m else (j, w) ∷ insert k v m

  -- One key after the other is removed.
  unfoldable pub remove_all : List String → Table V → Table V
  remove_all [] m = m
  remove_all (k ∷ ks) m = remove_all ks (remove k m)

  abbrev pub values : Table V → List V
  values [] = []
  values ((k, v) ∷ m) = v ∷ values m

  pub get-insert :
      (k j : String) (v : V) (m : Table V)
      → get j (insert k v m) ≡ (if str_eq k j then some v else get j m)
  unfolding get insert
  get-insert k j v [] = refl
  get-insert k j v ((i, w) ∷ m) =
      ground (arith, eq_iff k j, eq_iff i k, eq_iff i j, get-insert k j v m)

  pub get-remove :
      (k j : String) (m : Table V) → get j (remove k m) ≡ (if str_eq k j then none else get j m)
  unfolding get remove
  get-remove k j [] = ground arith
  get-remove k j ((i, w) ∷ m) = ground (arith, eq_iff k j, eq_iff i k, eq_iff i j, get-remove k j m)

  pub length-insert : (k : String) (v : V) (m : Table V) → length (insert k v m) ≤ length m + 1
  unfolding insert
  length-insert k v [] = omega arith
  length-insert k v ((j, w) ∷ m) = ground (arith, length-insert k v m)

  pub length-remove : (k : String) (m : Table V) → length (remove k m) ≤ length m
  unfolding remove
  length-remove k [] = omega arith
  length-remove k ((j, w) ∷ m) = ground (arith, length-remove k m)

  pub length-remove_all : (ks : List String) (m : Table V) → length (remove_all ks m) ≤ length m
  unfolding remove_all
  length-remove_all [] m = omega arith
  length-remove_all (k ∷ ks) m = omega (arith, length-remove_all ks (remove k m), length-remove k m)

  -- Removing a key that is there makes the map shorter.
  pub length-remove_lt :
      (k : String) (m : Table V) → is_some (get k m) ≡ true → length (remove k m) < length m
  unfolding get remove
  length-remove_lt k [] h = ground arith
  length-remove_lt k ((j, w) ∷ m) h = ground (arith, length-remove k m, length-remove_lt k m)

  pub length-values : (m : Table V) → length (values m) ≡ length m
  length-values [] = refl
  length-values ((k, v) ∷ m) = omega (arith, length-values m)

module _ {ℓ} {V : Type ℓ} (p : V → Bool) where
  pub count-remove :
      (k : String) (m : Table V) → count_if p (values (remove k m)) ≤ count_if p (values m)
  unfolding remove
  count-remove k [] = omega arith
  count-remove k ((j, w) ∷ m) = ground (arith, count-remove k m)

  pub count-remove_all :
      (ks : List String) (m : Table V)
      → count_if p (values (remove_all ks m)) ≤ count_if p (values m)
  unfolding remove_all
  count-remove_all [] m = omega arith
  count-remove_all (k ∷ ks) m = omega (arith, count-remove_all ks (remove k m), count-remove k m)

  pub count-insert :
      (k : String) (v : V) (m : Table V)
      → count_if p (values (insert k v m)) ≤ count_if p (values m) + (if p v then 1 else 0)
  unfolding insert
  count-insert k v [] = ground arith
  count-insert k v ((j, w) ∷ m) = ground (arith, count-insert k v m)

-- Replacing what a key has by what counts no more leaves a count no greater.
pub count-insert_found {ℓ} :
    {V : Type ℓ} (p : V → Bool) (k : String) (v w : V) (m : Table V)
    → get k m ≡ some w
    → (p v ≡ true → p w ≡ true)
    → count_if p (values (insert k v m)) ≤ count_if p (values m)
unfolding insert get
count-insert_found p k v w [] h less = ground arith
count-insert_found p k v w ((j, u) ∷ m) h less = ground (arith, count-insert_found p k v w m)
