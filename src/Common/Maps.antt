-- ===== src/Common/Maps.antt =====
-- Association lists as maps: std::unordered_map and std::unordered_set are modelled by them.

use mathlib.Core.Path.{◌≡◌, refl}
use mathlib.Core.Bool.{Bool, true, false}
use mathlib.Core.Option.{Option, none, some}
use mathlib.Core.List.{List, [], ◌∷◌}
use native.Mathlib.Omega.{arith}
use neu_stack.Common.Tests.{if◌then◌else◌}

-- The entry of a map under a key, for a test on keys.
module _ {K V : Type 0} (same : K → K → Bool) where
  unfoldable pub find_key : K → List (K × V) → Option V
  find_key k [] = none
  find_key k ((j, v) ∷ rest) = if same j k then some v else find_key k rest

  -- `map[k] = v`
  unfoldable pub put_key : K → V → List (K × V) → List (K × V)
  put_key k v [] = (k, v) ∷ []
  put_key k v ((j, w) ∷ rest) = if same j k then (k, v) ∷ rest else (j, w) ∷ put_key k v rest

  unfoldable pub erase_key : K → List (K × V) → List (K × V)
  erase_key k [] = []
  erase_key k ((j, w) ∷ rest) = if same j k then rest else (j, w) ∷ erase_key k rest

module _ {K V : Type 0} (same : K → K → Bool) where
  pub find_key-put_key :
      (k : K) (v : V) (map : List (K × V))
      → same k k ≡ true
      → find_key same k (put_key same k v map) ≡ some v
  unfolding find_key put_key
  find_key-put_key k v [] own = ground (arith, own)
  find_key-put_key k v ((j, w) ∷ rest) own = ground (arith, own, find_key-put_key k v rest own)

  -- The entries of other keys stay.
  pub find_key-put_key-other :
      (k other : K) (v : V) (map : List (K × V))
      → same k other ≡ false
      → ((j : K) → same j k ≡ true → same j other ≡ false)
      → find_key same other (put_key same k v map) ≡ find_key same other map
  unfolding find_key put_key
  find_key-put_key-other k other v [] apart alike = ground (arith, apart)
  find_key-put_key-other k other v ((j, w) ∷ rest) apart alike =
      ground (arith, apart, alike j, find_key-put_key-other k other v rest apart alike)

  -- A key without an entry is erased for nothing.
  pub erase_key-absent :
      (k : K) (map : List (K × V)) → find_key same k map ≡ none → erase_key same k map ≡ map
  unfolding find_key erase_key
  erase_key-absent k [] absent = refl
  erase_key-absent k ((j, w) ∷ rest) absent = ground (arith, absent, erase_key-absent k rest)

  -- Erasing the entry of a key leaves the entries of the other keys.
  pub find_key-erase_key-other :
      (k other : K) (map : List (K × V))
      → ((j : K) → same j k ≡ true → same j other ≡ false)
      → find_key same other (erase_key same k map) ≡ find_key same other map
  unfolding find_key erase_key
  find_key-erase_key-other k other [] apart = refl
  find_key-erase_key-other k other ((j, w) ∷ rest) apart =
      ground (arith, apart j, find_key-erase_key-other k other rest apart)
