-- ===== src/Base/Outcome.antt =====
-- The outcome of C code: a value, an ASSERT or PANIC, an access outside the object that it goes
-- through, or a loop that has used up its fuel.
use mathlib.Core.Path.{◌≡◌, refl, ap}
use mathlib.Core.Bool.{Bool, true, false}
use mathlib.Core.Option.{Option, none, some}

pub data Run {ℓ} (A : Type ℓ) : Type ℓ where
  ok : A → Run A
  panic : Run A
  fault : Run A
  out_of_fuel : Run A

infixl 5 ◌>>=◌
abbrev pub ◌>>=◌ {ℓ κ} : {A : Type ℓ} {B : Type κ} → Run A → (A → Run B) → Run B
panic >>= rest = panic
fault >>= rest = fault
out_of_fuel >>= rest = out_of_fuel
ok a >>= rest = rest a

infixl 5 ◌>>◌
abbrev pub ◌>>◌ {κ} : {B : Type κ} → Run (Unit {0}) → Run B → Run B
first >> rest = first >>= λ _. rest

-- ASSERT (b).
abbrev pub assert : Bool → Run (Unit {0})
assert true = ok tt
assert false = panic

-- A read through an index: outside the object it is a fault.
abbrev pub deref {ℓ} : {A : Type ℓ} → Option A → Run A
deref none = fault
deref (some a) = ok a

pub assert-true : {b : Bool} → b ≡ true → assert b ≡ ok tt
assert-true h = rw h

pub assert-eq-ok : (b : Bool) {u : Unit {0}} → assert b ≡ ok u → b ≡ true
assert-eq-ok true e = refl
assert-eq-ok false e = cc

pub >>=-eq-ok {ℓ κ} :
    {A : Type ℓ} {B : Type κ} (first : Run A) (rest : A → Run B) {result : B}
    → (first >>= rest) ≡ ok result
    → (a : A) × (first ≡ ok a) × (rest a ≡ ok result)
>>=-eq-ok (ok a) rest h = (a, refl, h)
>>=-eq-ok panic rest h = cc
>>=-eq-ok fault rest h = cc
>>=-eq-ok out_of_fuel rest h = cc

ok_or {ℓ} : {A : Type ℓ} → A → Run A → A
ok_or d (ok a) = a
ok_or d panic = d
ok_or d fault = d
ok_or d out_of_fuel = d

pub ok-injective {ℓ} : {A : Type ℓ} {a b : A} → ok a ≡ ok b → a ≡ b
unfolding ok_or
ok-injective {a} p = ap (ok_or a) p

-- What follows two steps, as one continuation.
pub bind_then {ℓ κ μ} :
    {A : Type ℓ} {B : Type κ} {C : Type μ} (r : Run A) (first : A → Run B) (rest : B → Run C)
    (k : A → Run C)
    → ((a : A) → (first a >>= rest) ≡ k a)
    → (r >>= first >>= rest) ≡ (r >>= k)
bind_then (ok a) first rest k h = h a
bind_then panic first rest k h = refl
bind_then fault first rest k h = refl
bind_then out_of_fuel first rest k h = refl
