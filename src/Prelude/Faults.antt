-- ===== src/Prelude/Faults.antt =====
-- Results that may be a fault, `none`: predicates on them, and their rules for a chain of steps.
use mathlib.Core.Bool.{Bool, true, false}
use mathlib.Core.Option.{Option, none, some}
use Prim.Native.Nat.{ℕ, zero, suc, ◌<◌}
use mathlib.Core.Path.{◌≡◌}
use native.Mathlib.Omega.{arith}
use mathlib.Core.List.{List, [], ◌∷◌}
use ptop.Prelude.Tests.{ltb, lt→ltb, if◌then◌else◌, ◌>>=◌}
use ptop.Prelude.Lists.{length, length-set, set, get_elem?}

-- A write into an array: a fault outside its bounds.
abbrev pub store {ℓ} : {A : Type ℓ} → List A → ℕ → A → Option (List A)
store xs i v = if ltb i (length xs) then some (set xs i v) else none

-- A result without a fault, of which `P` holds.
abbrev pub Returns {ℓ} : {A : Type ℓ} → (A → Type 0) → Option A → Type 0
Returns P none = ⊥
Returns P (some a) = P a

pub Returns-bind {ℓ} :
    {A B : Type ℓ} (P : A → Type 0) (Q : B → Type 0) (m : Option A) (f : A → Option B)
    → Returns P m
    → ((a : A) → P a → Returns Q (f a))
    → Returns Q (m >>= f)
Returns-bind P Q none f h k = h
Returns-bind P Q (some a) f h k = k a h

pub Returns-imp {ℓ} :
    {A : Type ℓ} (P Q : A → Type 0) (m : Option A)
    → ((a : A) → P a → Q a)
    → Returns P m
    → Returns Q m
Returns-imp P Q none f h = h
Returns-imp P Q (some a) f h = f a h

-- What holds of a result, if there was no fault.
abbrev pub IfReturns {ℓ κ} : {A : Type ℓ} → (A → Type κ) → Option A → Type κ
IfReturns P none = Unit
IfReturns P (some a) = P a

pub IfReturns-bind {ℓ κ} :
    {A : Type ℓ} {B : Type ℓ} (P : A → Type κ) (Q : B → Type κ) (m : Option A) (f : A → Option B)
    → IfReturns P m
    → ((a : A) → P a → IfReturns Q (f a))
    → IfReturns Q (m >>= f)
IfReturns-bind P Q none f h k = tt
IfReturns-bind P Q (some a) f h k = k a h

pub IfReturns-if {ℓ κ} :
    {A : Type ℓ} (P : A → Type κ) (b : Bool) (m n : Option A)
    → IfReturns P m
    → IfReturns P n
    → IfReturns P (if b then m else n)
IfReturns-if P true m n h k = h
IfReturns-if P false m n h k = k

pub IfReturns-any {ℓ} : {A : Type ℓ} (m : Option A) → IfReturns (λ _. Unit {0}) m
IfReturns-any none = tt
IfReturns-any (some a) = tt

pub get_elem?-within {ℓ} :
    {A : Type ℓ} (xs : List A) (i : ℕ) → i < length xs → Returns (λ _. Unit) (get_elem? xs i)
get_elem?-within [] i h = absurd (omega (arith, h))
get_elem?-within (x ∷ xs) zero h = tt
get_elem?-within (x ∷ xs) (suc i) h = get_elem?-within xs i (omega (arith, h))

pub store-length {ℓ} :
    {A : Type ℓ} (xs : List A) (i : ℕ) (v : A)
    → i < length xs
    → Returns (λ ys. length ys ≡ length xs) (store xs i v)
store-length xs i v h = rw (lt→ltb i (length xs) h) (length-set xs i v)

-- What holds of a result without a fault, when there is none.
pub Returns-IfReturns {ℓ} :
    {A : Type ℓ} (P Q : A → Type 0) (m : Option A) → Returns P m → IfReturns Q m → Returns Q m
Returns-IfReturns P Q none h k = h
Returns-IfReturns P Q (some a) h k = k

pub IfReturns-imp {ℓ κ} :
    {A : Type ℓ} (P Q : A → Type κ) (m : Option A)
    → ((a : A) → P a → Q a)
    → IfReturns P m
    → IfReturns Q m
IfReturns-imp P Q none f h = tt
IfReturns-imp P Q (some a) f h = f a h

pub some-inj {ℓ} : {A : Type ℓ} (a b : A) → some a ≡ some b → a ≡ b
some-inj a b e = cc

-- From what holds of a result that is there, and what holds of it if there is one.
pub Returns-both {ℓ} :
    {A : Type ℓ} (P Q R : A → Type 0) (m : Option A)
    → ((a : A) → P a → Q a → R a)
    → Returns P m
    → IfReturns Q m
    → Returns R m
Returns-both P Q R none f h k = h
Returns-both P Q R (some a) f h k = f a h k
