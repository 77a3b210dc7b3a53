-- ===== src/BTreeMap.antt =====
-- `std::collections::BTreeMap` with text keys: the entries in the order of their keys, found and
-- placed by comparison. The comparison of texts is that of their bytes.
pub mod Laws
use privacy_proxy.Base.{
  ℕ, Bool, true, false, ◌&&◌, ◌||◌, Option, none, some, List, [], ◌∷◌, ltb, ◌==◌, if◌then◌else◌,
  ◌≡◌,
}
use privacy_proxy.Text.{Bytes, equal}

unfoldable pub less : Bytes → Bytes → Bool
less [] [] = false
less [] (_ ∷ _) = true
less (_ ∷ _) [] = false
less (x ∷ xs) (y ∷ ys) = ltb x y || (x == y && less xs ys)

abbrev pub BTreeMap {ℓ} : Type ℓ → Type ℓ
BTreeMap V = List (Bytes × V)

module _ {ℓ} {V : Type ℓ} where
  abbrev pub or_start : Option V → V → V
  or_start none start = start
  or_start (some v) start = v

  unfoldable pub get : Bytes → BTreeMap V → Option V
  unfolding equal less
  get key [] = none
  get key ((k, v) ∷ rest) =
      if equal k key then some v else if less key k then none else get key rest

  -- `*map.entry(key).or_insert(start)` is replaced by its image under `f`.
  unfoldable pub alter : Bytes → V → (V → V) → BTreeMap V → BTreeMap V
  unfolding equal less
  alter key start f [] = (key, f start) ∷ []
  alter key start f ((k, v) ∷ rest) =
      if equal k key
      then (k, f v) ∷ rest
      else if less key k
      then (key, f start) ∷ (k, v) ∷ rest
      else (k, v) ∷ alter key start f rest

  -- Every key is less than all that follow it.
  abbrev pub Above : Bytes → BTreeMap V → Type 0
  Above key [] = Unit
  Above key ((k, _) ∷ _) = less key k ≡ true

  abbrev pub IsSorted : BTreeMap V → Type 0
  IsSorted [] = Unit
  IsSorted ((k, _) ∷ rest) = Above k rest × IsSorted rest
