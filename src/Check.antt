-- ===== src/Check.antt =====
-- Validation functions that return 1 or 0, and may run into a failed assertion or an invalid access.
use vulkan_core.Common.{◌≡◌, refl, Bool, true, false, Option, none, some}

-- `reject` is the result 0, `pass` the result 1 or a value that the function goes on with.
pub data Check (A : Type 0) : Type 0 where
  crash : Check A
  reject : Check A
  pass : A → Check A

infixl 5 ◌>>=◌ ◌>>◌
abbrev pub ◌>>=◌ : {A B : Type 0} → Check A → (A → Check B) → Check B
crash >>= f = crash
reject >>= f = reject
pass a >>= f = f a

abbrev pub ◌>>◌ : {B : Type 0} → Check (Unit {0}) → Check B → Check B
m >> k = m >>= λ _. k

abbrev pub guard : Bool → Check (Unit {0})
guard true = pass tt
guard false = reject

-- A check that may be undefined.
abbrev pub guard? : Option Bool → Check (Unit {0})
guard? none = crash
guard? (some b) = guard b

-- `if (call) return 0;` with a result that is dropped.
abbrev pub access : {A : Type 0} → Option A → Check A
access none = crash
access (some a) = pass a

pub >>=-eq-pass :
    {A B : Type 0} (m : Check A) (f : A → Check B) {b : B}
    → (m >>= f) ≡ pass b
    → (a : A) × (m ≡ pass a) × (f a ≡ pass b)
>>=-eq-pass crash f h = cc
>>=-eq-pass reject f h = cc
>>=-eq-pass (pass a) f h = (a, refl, h)

pub guard-eq-pass : (b : Bool) → guard b ≡ pass tt → b ≡ true
guard-eq-pass true h = refl
guard-eq-pass false h = cc

pub >>=-ext :
    {A B : Type 0} (m : Check A) {f g : A → Check B} → ((a : A) → f a ≡ g a) → (m >>= f) ≡ (m >>= g)
>>=-ext crash e = refl
>>=-ext reject e = refl
>>=-ext (pass a) e = e a
