-- ===== src/Prelude/JsMap.antt =====
-- A JavaScript `Map`: entries in the order of insertion, one for each key.
-- Setting a key that is present keeps its place; a deleted key is gone and is later added at the end.
use mathlib.Core.Path.{◌≡◌, refl}
use mathlib.Core.Logic.{◌≢◌}
use mathlib.Core.Bool.{Bool, true, false}
use mathlib.Core.Option.{Option, none, some}
use mathlib.Core.List.{List, [], ◌∷◌, map}
use native.Mathlib.Omega.{arith}
use Prim.Native.Nat.{◌+◌, ◌≤◌}
use reins_core.Prelude.Tests.{if◌then◌else◌}
use reins_core.Prelude.Eq.{Eq}
use reins_core.Prelude.Lists.{length, All}

abbrev pub is_some {ℓ} : {A : Type ℓ} → Option A → Bool
is_some none = false
is_some (some a) = true

abbrev pub JsMap {ℓ} : Type 0 → Type ℓ → Type ℓ
JsMap K V = List (K × V)

module _ {ℓ} {K : Type 0} {V : Type ℓ} where
  abbrev pub keys : JsMap K V → List K
  keys = map λ e. e.0

  abbrev pub values : JsMap K V → List V
  values = map λ e. e.1

  -- No key stands twice.
  abbrev pub HasDistinctKeys : JsMap K V → Type 0
  HasDistinctKeys [] = Unit
  HasDistinctKeys ((k, v) ∷ m) = All (λ j. j ≢ k) (keys m) × HasDistinctKeys m

module _ {ℓ} {K : Type 0} {V : Type ℓ} ⦃e : Eq K⦄ where
  unfoldable pub get : JsMap K V → K → Option V
  get [] k = none
  get ((j, v) ∷ m) k = if e.same j k then some v else get m k

  unfoldable pub set : JsMap K V → K → V → JsMap K V
  set [] k v = (k, v) ∷ []
  set ((j, w) ∷ m) k v = if e.same j k then (j, v) ∷ m else (j, w) ∷ set m k v

  unfoldable pub delete : JsMap K V → K → JsMap K V
  delete [] k = []
  delete ((j, w) ∷ m) k = if e.same j k then m else (j, w) ∷ delete m k

  abbrev pub has : JsMap K V → K → Bool
  has m k = is_some (get m k)

  pub get-set :
      (m : JsMap K V) (k j : K) (v : V)
      → get (set m k v) j ≡ (if e.same k j then some v else get m j)
  unfolding get set
  get-set [] k j v = refl
  get-set ((i, w) ∷ m) k j v =
      ground (arith, e.same_iff k j, e.same_iff i k, e.same_iff i j, get-set m k j v)

  keys-set_ne :
      (m : JsMap K V) (k j : K) (v : V)
      → k ≢ j
      → All (λ i. i ≢ j) (keys m)
      → All (λ i. i ≢ j) (keys (set m k v))
  unfolding set
  keys-set_ne [] k j v h a = (h, tt)
  keys-set_ne ((i, w) ∷ m) k j v h a = ground (arith, keys-set_ne m k j v h)

  pub set-HasDistinctKeys :
      (m : JsMap K V) (k : K) (v : V) → HasDistinctKeys m → HasDistinctKeys (set m k v)
  unfolding set
  set-HasDistinctKeys [] k v d = (tt, tt)
  set-HasDistinctKeys ((i, w) ∷ m) k v d =
      ground (arith, e.same_iff i k, set-HasDistinctKeys m k v, keys-set_ne m k i v)

  keys-delete_ne :
      (m : JsMap K V) (k j : K) → All (λ i. i ≢ j) (keys m) → All (λ i. i ≢ j) (keys (delete m k))
  unfolding delete
  keys-delete_ne [] k j a = tt
  keys-delete_ne ((i, w) ∷ m) k j a = ground (arith, keys-delete_ne m k j)

  pub delete-HasDistinctKeys :
      (m : JsMap K V) (k : K) → HasDistinctKeys m → HasDistinctKeys (delete m k)
  unfolding delete
  delete-HasDistinctKeys [] k d = tt
  delete-HasDistinctKeys ((i, w) ∷ m) k d =
      ground (arith, delete-HasDistinctKeys m k, keys-delete_ne m k i)

  get_absent : (m : JsMap K V) (k : K) → All (λ i. i ≢ k) (keys m) → get m k ≡ none
  unfolding get
  get_absent [] k a = refl
  get_absent ((i, w) ∷ m) k a = ground (arith, e.same_iff i k, get_absent m k)

  pub get-delete :
      (m : JsMap K V) (k j : K)
      → HasDistinctKeys m
      → get (delete m k) j ≡ (if e.same k j then none else get m j)
  unfolding get delete
  get-delete [] k j d = ground arith
  get-delete ((i, w) ∷ m) k j d =
      ground
        (arith, e.same_iff k j, e.same_iff i k, e.same_iff i j, get-delete m k j, get_absent m k)

  pub length-set-le : (m : JsMap K V) (k : K) (v : V) → length (set m k v) ≤ length m + 1
  unfolding set
  length-set-le [] k v = omega arith
  length-set-le ((i, w) ∷ m) k v = ground (arith, length-set-le m k v)

  pub length-delete-le : (m : JsMap K V) (k : K) → length (delete m k) ≤ length m
  unfolding delete
  length-delete-le [] k = omega arith
  length-delete-le ((i, w) ∷ m) k = ground (arith, length-delete-le m k)
