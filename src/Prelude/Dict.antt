-- ===== src/Prelude/Dict.antt =====
-- A JavaScript `Map` with text keys, and an IndexedDB object store, as association lists: `set` keeps
-- the order of insertion as `Map.set` does, `put` keeps the records in the order of their keys.
use Prim.Native.String.{String}
use mathlib.Core.Path.{◌≡◌, refl}
use mathlib.Core.Bool.{Bool}
use mathlib.Core.Option.{Option, none, some}
use mathlib.Core.List.{List, [], ◌∷◌}
use native.Mathlib.Omega.{arith}
use text.Mathlib.Text.{◌==◌}
use text.Mathlib.TextEquality.{eq_iff}
use nonetchat_web.Prelude.Tests.{if◌then◌else◌, text_lt, is_some}

abbrev pub Dict {ℓ} : Type ℓ → Type ℓ
Dict V = List (String × V)

module _ {ℓ} {V : Type ℓ} where
  unfoldable pub get : String → Dict V → Option V
  get k [] = none
  get k ((j, v) ∷ m) = if j == k then some v else get k m

  -- `Map.set`: in place where the key is there, else at the end.
  unfoldable pub set : String → V → Dict V → Dict V
  set k v [] = (k, v) ∷ []
  set k v ((j, w) ∷ m) = if j == k then (k, v) ∷ m else (j, w) ∷ set k v m

  unfoldable pub has : String → Dict V → Bool
  unfolding get
  has k m = is_some (get k m)

  -- Before the first greater key.
  unfoldable pub insert : String → V → Dict V → Dict V
  insert k v [] = (k, v) ∷ []
  insert k v ((j, w) ∷ m) = if text_lt k j then (k, v) ∷ (j, w) ∷ m else (j, w) ∷ insert k v m

  -- `IDBObjectStore.put`: in place where the key is there, else in the order of the keys.
  unfoldable pub put : String → V → Dict V → Dict V
  unfolding set insert has
  put k v m = if has k m then set k v m else insert k v m

  unfoldable pub delete : String → Dict V → Dict V
  delete k [] = []
  delete k ((j, v) ∷ m) = if j == k then delete k m else (j, v) ∷ delete k m

  unfoldable pub keys : Dict V → List String
  keys [] = []
  keys ((j, v) ∷ m) = j ∷ keys m

  unfoldable pub values : Dict V → List V
  values [] = []
  values ((j, v) ∷ m) = v ∷ values m

module _ {ℓ} {V : Type ℓ} where
  pub get-set :
      (j k : String) (v : V) (m : Dict V) → get j (set k v m) ≡ (if k == j then some v else get j m)
  unfolding get set
  get-set j k v [] = refl
  get-set j k v ((i, w) ∷ m) = ground (arith, eq_iff k j, eq_iff i k, eq_iff i j, get-set j k v m)

  pub get-insert :
      (j k : String) (v : V) (m : Dict V)
      → get k m ≡ none
      → get j (insert k v m) ≡ (if k == j then some v else get j m)
  unfolding get insert
  get-insert j k v [] e = refl
  get-insert j k v ((i, w) ∷ m) e =
      ground (arith, eq_iff k j, eq_iff i k, eq_iff i j, get-insert j k v m)

  pub get-put :
      (j k : String) (v : V) (m : Dict V) → get j (put k v m) ≡ (if k == j then some v else get j m)
  unfolding put
  get-put j k v m = ground (arith, get-set j k v m, get-insert j k v m)

  pub get-delete :
      (j k : String) (m : Dict V) → get j (delete k m) ≡ (if k == j then none else get j m)
  unfolding get delete
  get-delete j k [] = ground arith
  get-delete j k ((i, w) ∷ m) = ground (arith, eq_iff k j, eq_iff i k, eq_iff i j, get-delete j k m)

module _ {ℓ} {V : Type ℓ} where
  pub get-set_same : (k : String) (v : V) (m : Dict V) → get k (set k v m) ≡ some v
  get-set_same k v m = ground (arith, get-set k k v m, eq_iff k k)

  pub get-put_same : (k : String) (v : V) (m : Dict V) → get k (put k v m) ≡ some v
  get-put_same k v m = ground (arith, get-put k k v m, eq_iff k k)

  pub get-delete_same : (k : String) (m : Dict V) → get k (delete k m) ≡ none
  get-delete_same k m = ground (arith, get-delete k k m, eq_iff k k)

pub ruleset dict_laws = (get-set, get-put, get-delete)
