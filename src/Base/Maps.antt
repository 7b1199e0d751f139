-- ===== src/Base/Maps.antt =====
-- Stored maps as lists of entries, in the order in which a range over the map returns them.
use mathlib.Core.Path.{◌≡◌, refl}
use mathlib.Core.Logic.{◌↔◌}
use mathlib.Core.Bool.{Bool, true}
use mathlib.Core.Option.{Option, none, some}
use mathlib.Core.List.{List, [], ◌∷◌}
use native.Mathlib.Omega.{arith}
use jullia_lp_staking.Base.Tests.{if◌then◌else◌}

-- Keys: equality, and the order of the stored bytes, of which no law is needed.
pub record Key (K : Type 0) : Type 0 where
  pub beq : K → K → Bool
  pub beq_iff : (a b : K) → (beq a b ≡ true) ↔ (a ≡ b)
  pub before : K → K → Bool

module _ {K V : Type 0} (key : Key K) where
  unfoldable pub lookup : K → List (K × V) → Option V
  lookup k [] = none
  lookup k ((j, v) ∷ m) = if key.beq j k then some v else lookup k m

  unfoldable pub remove : K → List (K × V) → List (K × V)
  remove k [] = []
  remove k ((j, v) ∷ m) = let rest = remove k m in if key.beq j k then rest else (j, v) ∷ rest

  -- A key that is not stored yet, in its place.
  unfoldable pub place : K → V → List (K × V) → List (K × V)
  place k v [] = (k, v) ∷ []
  place k v ((j, w) ∷ m) =
      let rest = place k v m in if key.before k j then (k, v) ∷ (j, w) ∷ m else (j, w) ∷ rest

  -- A value takes the place of the one that was stored under its key.
  unfoldable pub insert : K → V → List (K × V) → List (K × V)
  insert k v m = place k v (remove k m)

  lookup-place :
      (k i : K) (v : V) (m : List (K × V))
      → lookup k m ≡ none
      → lookup i (place k v m) ≡ (if key.beq k i then some v else lookup i m)
  unfolding lookup place
  lookup-place k i v [] new = refl
  lookup-place k i v ((j, w) ∷ m) new =
      ground (arith, lookup-place k i v m, key.beq_iff k i, key.beq_iff j k, key.beq_iff j i)

  pub lookup-remove :
      (k i : K) (m : List (K × V))
      → lookup i (remove k m) ≡ (if key.beq k i then none else lookup i m)
  unfolding lookup remove
  lookup-remove k i [] = ground arith
  lookup-remove k i ((j, w) ∷ m) =
      ground (arith, lookup-remove k i m, key.beq_iff k i, key.beq_iff j k, key.beq_iff j i)

  pub lookup-insert :
      (k i : K) (v : V) (m : List (K × V))
      → lookup i (insert k v m) ≡ (if key.beq k i then some v else lookup i m)
  unfolding insert
  lookup-insert k i v m = ground (
    arith,
    lookup-place k i v (remove k m),
    lookup-remove k k m,
    lookup-remove k i m,
    key.beq_iff k k,
  )

  -- No key is stored twice.
  abbrev pub KeysOnce : List (K × V) → Type 0
  KeysOnce [] = Unit
  KeysOnce ((k, v) ∷ m) = (lookup k m ≡ none) × KeysOnce m

  KeysOnce-place :
      (k : K) (v : V) (m : List (K × V)) → lookup k m ≡ none → KeysOnce m → KeysOnce (place k v m)
  unfolding lookup place
  KeysOnce-place k v [] new once = (refl, tt)
  KeysOnce-place k v ((j, w) ∷ m) new once =
      ground (arith, KeysOnce-place k v m, lookup-place k j v m, key.beq_iff k j, key.beq_iff j k)

  pub KeysOnce-remove : (k : K) (m : List (K × V)) → KeysOnce m → KeysOnce (remove k m)
  unfolding remove
  KeysOnce-remove k [] once = tt
  KeysOnce-remove k ((j, w) ∷ m) once = ground (arith, KeysOnce-remove k m, lookup-remove k j m)

  pub KeysOnce-insert : (k : K) (v : V) (m : List (K × V)) → KeysOnce m → KeysOnce (insert k v m)
  unfolding insert
  KeysOnce-insert k v m once =
      KeysOnce-place k v (remove k m) (ground (arith, lookup-remove k k m, key.beq_iff k k))
        (KeysOnce-remove k m once)
