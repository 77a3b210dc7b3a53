-- ===== src/Error.antt =====
-- crates/privacy_proxy_core/src/error.rs: the errors of the core crate, and `Result`. The errors of
-- other crates are held without what they carry.
use privacy_proxy.Text.{Bytes}
use privacy_proxy.Base.{Bool, true, false, Option, none, some, if◌then◌else◌, ◌≡◌, refl, subst}

pub data Error : Type 0 where
  regex toml_de toml_ser : Error
  invalid_config : Bytes → Error
  missing_hash_key : Bytes → Error
  json_for_hash invalid_hmac_key : Error

-- `std::result::Result`
pub data Fallible {ℓ} (E : Type 0) (A : Type ℓ) : Type ℓ where
  ok : A → Fallible E A
  err : E → Fallible E A

abbrev pub Result {ℓ} : Type ℓ → Type ℓ
Result A = Fallible Error A

infixl 5 ◌>>=◌
-- The operator `?` on what stands before it.
abbrev pub ◌>>=◌ {ℓ κ} :
    {E : Type 0} {A : Type ℓ} {B : Type κ} → Fallible E A → (A → Fallible E B) → Fallible E B
err stop >>= later = err stop
ok value >>= later = later value

infixl 5 ◌>>◌
abbrev pub ◌>>◌ {ℓ} :
    {E : Type 0} {B : Type ℓ} → Fallible E (Unit {0}) → Fallible E B → Fallible E B
before >> after = before >>= λ done. after

-- An early `return Err(e)` under a test.
abbrev pub fail_if : {E : Type 0} → Bool → E → Fallible E (Unit {0})
fail_if true e = err e
fail_if false e = ok tt

-- `map_err`
abbrev pub map_err {ℓ} : {E F : Type 0} {A : Type ℓ} → (E → F) → Fallible E A → Fallible F A
map_err change (ok value) = ok value
map_err change (err e) = err (change e)

pub ok-injective {ℓ} :
    {E : Type 0} {A : Type ℓ} {a b : A} → ◌≡◌ {A = Fallible E A} (ok a) (ok b) → a ≡ b
ok-injective e = cc

-- What a chain that returned went through.
pub bind-eq-ok {ℓ κ} :
    {E : Type 0} {A : Type ℓ} {B : Type κ} (first : Fallible E A) (later : A → Fallible E B) {b : B}
    → (first >>= later) ≡ ok b
    → (a : A) × (first ≡ ok a) × (later a ≡ ok b)
bind-eq-ok (err stop) later e = cc
bind-eq-ok (ok value) later e = (value, refl, e)

-- A call that returns a result.
abbrev pub Returns {ℓ} : {E : Type 0} {A : Type ℓ} → Fallible E A → Type ℓ
Returns {A = A} r = (a : A) × (r ≡ ok a)

-- Two calls that return, one after the other.
pub bind-Returns {ℓ κ} :
    {E : Type 0} {A : Type ℓ} {B : Type κ} (m : Fallible E A) (f : A → Fallible E B)
    → Returns m
    → ((a : A) → Returns (f a))
    → Returns (m >>= f)
bind-Returns m f (a, e) h = let (b, r) = h a in (b, rw e r)

pub if-Returns {ℓ} :
    {E : Type 0} {A : Type ℓ} (b : Bool) (m n : Fallible E A)
    → Returns m
    → Returns n
    → Returns (if b then m else n)
if-Returns true m n p q = p
if-Returns false m n p q = q

pub option-Returns {ℓ κ} :
    {E : Type 0} {A : Type ℓ} {B : Type κ} (o : Option A) (m : Fallible E B) (f : A → Fallible E B)
    → Returns m
    → ((a : A) → Returns (f a))
    → Returns (elim o [ none ↦ m | some a ↦ f a ])
option-Returns none m f p h = p
option-Returns (some a) m f p h = h a

-- What holds of the value of a call, if it returns one.
abbrev pub Holds {ℓ} : {E : Type 0} {A : Type ℓ} → (A → Type 0) → Fallible E A → Type ℓ
Holds {A = A} P r = (a : A) → r ≡ ok a → P a

pub ok-Holds {ℓ} : {E : Type 0} {A : Type ℓ} (P : A → Type 0) (a : A) → P a → Holds {E = E} P (ok a)
ok-Holds P a p b e = subst P (ok-injective e) p

pub bind-Holds {ℓ κ} :
    {E : Type 0} {A : Type ℓ} {B : Type κ} (P : A → Type 0) (Q : B → Type 0) (m : Fallible E A)
    (f : A → Fallible E B)
    → Holds P m
    → ((a : A) → P a → Holds Q (f a))
    → Holds Q (m >>= f)
bind-Holds P Q m f h k b e = let (a, first, next) = bind-eq-ok m f e in k a (h a first) b next

pub if-Holds {ℓ} :
    {E : Type 0} {A : Type ℓ} (P : A → Type 0) (b : Bool) (m n : Fallible E A)
    → Holds P m
    → Holds P n
    → Holds P (if b then m else n)
if-Holds P true m n p q a e = p a e
if-Holds P false m n p q a e = q a e

pub option-Holds {ℓ κ} :
    {E : Type 0} {A : Type ℓ} {B : Type κ} (P : B → Type 0) (o : Option A) (m : Fallible E B)
    (f : A → Fallible E B)
    → Holds P m
    → ((a : A) → Holds P (f a))
    → Holds P (elim o [ none ↦ m | some a ↦ f a ])
option-Holds P none m f p h b e = p b e
option-Holds P (some a) m f p h b e = h a b e
