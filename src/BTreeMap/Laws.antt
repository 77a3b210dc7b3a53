-- ===== src/BTreeMap/Laws.antt =====
-- The order of keys, and what a lookup finds after an entry was altered.
use privacy_proxy.Base.{true, false, none, some, [], ◌∷◌, if◌then◌else◌, ◌≡◌, refl, arith}
use privacy_proxy.Text.{Bytes, equal}
use privacy_proxy.Text.Laws.{equal_iff}
use privacy_proxy.BTreeMap.{less, BTreeMap, or_start, get, alter, Above, IsSorted}

pub less_irrefl : (a : Bytes) → less a a ≡ false
unfolding less
less_irrefl [] = refl
less_irrefl (x ∷ a) = ground (arith, less_irrefl a)

pub less_trans : (a b c : Bytes) → less a b ≡ true → less b c ≡ true → less a c ≡ true
unfolding less
less_trans (x ∷ a) (y ∷ b) (z ∷ c) p q = ground (arith, less_trans a b c)
less_trans [] (y ∷ b) (z ∷ c) p q = refl
less_trans _ _ _ p q = cc

pub less_total : (a b : Bytes) → less a b ≡ false → equal b a ≡ false → less b a ≡ true
unfolding less equal
less_total (x ∷ a) (y ∷ b) p q = ground (arith, less_total a b)
less_total [] [] p q = cc
less_total _ _ p q = ground arith

module _ {ℓ} {V : Type ℓ} where
  pub get-alter :
      (key j : Bytes) (start : V) (f : V → V) (m : BTreeMap V)
      → get j (alter key start f m)
        ≡ (if equal key j then some (f (or_start (get key m) start)) else get j m)
  unfolding get alter
  get-alter key j start f [] = ground arith
  get-alter key j start f ((k, v) ∷ m) = ground (
    arith,
    get-alter key j start f m,
    equal_iff key j,
    equal_iff k key,
    equal_iff k j,
    less_irrefl key,
    less_irrefl k,
    less_trans j key k,
  )

  Above-alter :
      (k key : Bytes) (start : V) (f : V → V) (m : BTreeMap V)
      → less k key ≡ true
      → Above k m
      → Above k (alter key start f m)
  unfolding alter
  Above-alter k key start f [] p h = p
  Above-alter k key start f ((j, v) ∷ m) p h = ground arith

  pub IsSorted-alter :
      (key : Bytes) (start : V) (f : V → V) (m : BTreeMap V)
      → IsSorted m
      → IsSorted (alter key start f m)
  unfolding alter
  IsSorted-alter key start f [] h = (tt, tt)
  IsSorted-alter key start f ((k, v) ∷ m) h =
      ground (arith, IsSorted-alter key start f m, less_total key k, Above-alter k key start f m)

  -- A key below all keys of a map is not in it.
  pub get-Above : (key : Bytes) (m : BTreeMap V) → Above key m → get key m ≡ none
  unfolding get
  get-Above key [] h = refl
  get-Above key ((k, v) ∷ m) h = ground (arith, equal_iff k key, less_irrefl key)

  Above-less : (j key : Bytes) (m : BTreeMap V) → less j key ≡ true → Above key m → Above j m
  Above-less j key [] p h = tt
  Above-less j key ((k, v) ∷ m) p h = less_trans j key k p h

  -- So is a key that is smaller still.
  pub get-less : (j key : Bytes) (m : BTreeMap V) → less j key ≡ true → Above key m → get j m ≡ none
  get-less j key m p h = get-Above j m (Above-less j key m p h)
