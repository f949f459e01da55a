-- ===== src/Base/Outcome.antt =====
-- How a C function ends: with a value, in a failed `assert` (or `abort`), in an access outside an
-- object, through a null pointer, or in the use of a variable that no statement has set.
use mathlib.Core.Path.{◌≡◌, refl, subst}
use mathlib.Core.Bool.{Bool, true, false}
use e2f77dee9c9d8e2bfbcafc.Base.Tests.{if◌then◌else◌}
use mathlib.Core.Option.{Option, none, some}

pub data Fault : Type 0 where
  assertion bounds null indeterminate : Fault

pub data Result {ℓ} (A : Type ℓ) : Type ℓ where
  ok : A → Result A
  fault : Fault → Result A

-- The statements of a function in order: a fault ends it.
infixl 5 ◌>>=◌
abbrev pub ◌>>=◌ {α β} :
    {X : Type α} {Y : Type β} (first : Result X) (rest : X → Result Y) → Result Y
fault why >>= rest = fault why
ok value >>= rest = rest value

infixl 5 ◌>>◌
abbrev pub ◌>>◌ {β} : {Y : Type β} (first : Result (Unit {0})) (rest : Result Y) → Result Y
first >> rest = first >>= (λ done. rest)

-- `assert(b)`, in a build that keeps assertions.
abbrev pub assert : Bool → Result (Unit {0})
assert true = ok tt
assert false = fault assertion

-- A pointer that must not be null.
abbrev pub deref {ℓ} : {A : Type ℓ} → Option A → Result A
deref none = fault null
deref (some a) = ok a

-- An array element that must exist.
abbrev pub within {ℓ} : {A : Type ℓ} → Option A → Result A
within none = fault bounds
within (some a) = ok a

-- The statement that a run ends with a value that satisfies `P`.
abbrev pub Returns {ℓ} : {A : Type ℓ} → Result A → (A → Type 0) → Type 0
Returns (ok a) P = P a
Returns (fault e) P = ⊥

-- The statement that a run, if it ends with a value at all, leaves `P` true of it.
abbrev pub Keeps {ℓ} : {A : Type ℓ} → Result A → (A → Type 0) → Type 0
Keeps (ok a) P = P a
Keeps (fault e) P = Unit {0}

pub >>=-Keeps {ℓ κ} :
    {A : Type ℓ} {B : Type κ} (m : Result A) (f : A → Result B) (P : A → Type 0) (Q : B → Type 0)
    → Keeps m P
    → ((a : A) → P a → Keeps (f a) Q)
    → Keeps (m >>= f) Q
>>=-Keeps (ok a) f P Q h k = k a h
>>=-Keeps (fault e) f P Q h k = tt

-- The same where nothing has to be known of the first part.
pub >>=-Keeps_any {ℓ κ} :
    {A : Type ℓ} {B : Type κ} (m : Result A) (f : A → Result B) (Q : B → Type 0)
    → ((a : A) → Keeps (f a) Q)
    → Keeps (m >>= f) Q
>>=-Keeps_any (ok a) f Q k = k a
>>=-Keeps_any (fault e) f Q k = tt

-- A run that ends with a value has kept the property.
pub Keeps_ok {ℓ} : {A : Type ℓ} (m : Result A) (P : A → Type 0) {a : A} → Keeps m P → m ≡ ok a → P a
Keeps_ok (ok b) P h e = subst P (cc) h
Keeps_ok (fault x) P h e = absurd (cc)

pub if-Keeps {ℓ} :
    {A : Type ℓ} (b : Bool) (m n : Result A) (P : A → Type 0)
    → Keeps m P
    → Keeps n P
    → Keeps (if b then m else n) P
if-Keeps true m n P h k = h
if-Keeps false m n P h k = k

pub if_both {ℓ} :
    {A : Type ℓ} (b : Bool) (x y : A) (P : A → Type 0) → P x → P y → P (if b then x else y)
if_both true x y P h k = h
if_both false x y P h k = k

pub Keeps_map {ℓ} :
    {A : Type ℓ} (m : Result A) (P Q : A → Type 0) → Keeps m P → ((a : A) → P a → Q a) → Keeps m Q
Keeps_map (ok a) P Q h k = k a h
Keeps_map (fault e) P Q h k = tt

pub >>=-Returns {α β} :
    {X : Type α} {Y : Type β} (m : Result X) (f : X → Result Y) (P : X → Type 0) (Q : Y → Type 0)
    → Returns m P
    → ((x : X) → P x → Returns (f x) Q)
    → Returns (m >>= f) Q
>>=-Returns (ok x) f P Q h k = k x h
>>=-Returns (fault why) f P Q h k = absurd h

pub assert-Returns {β} :
    {Y : Type β} (b : Bool) (rest : Result Y) (Q : Y → Type 0)
    → b ≡ true
    → Returns rest Q
    → Returns (assert b >> rest) Q
assert-Returns true rest Q e h = h
assert-Returns false rest Q e h = absurd (cc (e))

pub Returns_both {ℓ} :
    {A : Type ℓ} (m : Result A) (P Q : A → Type 0)
    → Returns m P
    → Returns m Q
    → Returns m (λ a. P a × Q a)
Returns_both (ok a) P Q h k = (h, k)
Returns_both (fault e) P Q h k = h

pub Returns_map {ℓ} :
    {A : Type ℓ} (m : Result A) (P Q : A → Type 0)
    → Returns m P
    → ((a : A) → P a → Q a)
    → Returns m Q
Returns_map (ok a) P Q h k = k a h
Returns_map (fault e) P Q h k = h

-- The value of a run that returns one.
pub Returns_value {ℓ} :
    {A : Type ℓ} (m : Result A) (P : A → Type 0) → Returns m P → (a : A) × (m ≡ ok a) × P a
Returns_value (ok a) P h = (a, refl, h)
Returns_value (fault why) P h = absurd h
