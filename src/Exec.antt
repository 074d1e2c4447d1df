-- ===== src/Exec.antt =====
-- Functions that return 0 or 1 and change an object, as state passing.

use vulkan_core.Common.{◌≡◌, refl, Option, none, some}

-- `fault` is a failed `assert` or an access outside an object, `error` the return value 1. What
-- was changed before an error stays changed.
pub data Outcome (S A : Type 0) : Type 0 where
  fault : Outcome S A
  error : S → Outcome S A
  ok : A → S → Outcome S A

abbrev pub Exec : Type 0 → Type 0 → Type 0
Exec S A = S → Outcome S A

abbrev pub Action : Type 0 → Type 0
Action S = Exec S (Unit {0})

abbrev pub done : {S A : Type 0} → A → Exec S A
done = ok

abbrev pub stop : {S A : Type 0} → Exec S A
stop s = fault

abbrev pub fail : {S A : Type 0} → Exec S A
fail = error

module _ {S A B : Type 0} where
  abbrev pub and_then : Outcome S A → (A → Exec S B) → Outcome S B
  and_then fault k = fault
  and_then (error s) k = error s
  and_then (ok a s) k = k a s

  infixl 5 ◌>>=◌ ◌>>◌
  abbrev pub ◌>>=◌ : Exec S A → (A → Exec S B) → Exec S B
  m >>= k = λ s. and_then (m s) k

  abbrev pub ◌>>◌ : Exec S A → Exec S B → Exec S B
  m >> n = m >>= λ _. n

-- A memory access, which is a fault out of bounds.
abbrev pub require : {S A : Type 0} → Option A → Exec S A
require none = stop
require (some a) = done a

-- An object that the function builds for itself: the outcome of changing it is the function's.
abbrev pub local : {S T : Type 0} → Outcome T (Unit {0}) → Exec S T
local fault = stop
local (error t) = stop
local (ok _ t) = done t

pub and_then-eq-ok :
    {S A B : Type 0} (o : Outcome S A) (k : A → Exec S B) {w : B} {t : S}
    → and_then o k ≡ ok w t
    → (v : A) × (s : S) × (o ≡ ok v s) × (k v s ≡ ok w t)
and_then-eq-ok fault k e = cc
and_then-eq-ok (error s) k e = cc
and_then-eq-ok (ok v s) k e = (v, s, refl, e)

pub ok-inj : {S A : Type 0} {v w : A} {s t : S} → ok v s ≡ ok w t → (v ≡ w) × (s ≡ t)
ok-inj e = (cc, cc)
