-- ===== src/Block/Valid/Loops.antt =====
-- When checks and loops of checks pass.
use vulkan_core.Common.{
  ℕ, zero, suc, ◌+◌, ◌≡◌, refl, sym, ap, ap₂, ◌∙◌, ◌↔◌, Bool, true, false, not, Option, none, some,
  List, [], ◌∷◌, length, get_elem?, arith,
}
use mathlib.Core.Option.{some-injective}
use vulkan_core.Check.{Check, crash, reject, pass, ◌>>=◌, ◌>>◌, guard, access}
use vulkan_core.Block.Valid.{check_each}

pub >>-iff : (m k : Check (Unit {0})) → ((m >> k) ≡ pass tt) ↔ ((m ≡ pass tt) × (k ≡ pass tt))
>>-iff crash k = (λ h. cc, λ h. cc (h.0))
>>-iff reject k = (λ h. cc, λ h. cc (h.0))
>>-iff (pass tt) k = (λ h. (refl, h), λ h. h.1)

pub guard-not_iff : (b : Bool) → (guard (not b) ≡ pass tt) ↔ (b ≡ false)
guard-not_iff true = (λ h. cc, λ h. cc)
guard-not_iff false = (λ h. refl, λ h. refl)

pub access->>=_iff :
    {A : Type 0} (m : Option A) (f : A → Check (Unit {0}))
    → ((access m >>= f) ≡ pass tt) ↔ ((a : A) × (m ≡ some a) × (f a ≡ pass tt))
access->>=_iff none f = (λ h. cc, λ h. cc (h.1))
access->>=_iff {A} (some a) f = (λ h. (a, refl, h), λ h. back h.0 h.1 h.2)
  where
    back : (c : A) → some a ≡ some c → f c ≡ pass tt → f a ≡ pass tt
    back c e h = ap f (some-injective a c e) ∙ h

module _ {A : Type 0} (f : ℕ → A → Check (Unit {0})) where
  -- A property of all the elements of a list, by their indices.
  split_index :
      (i : ℕ) (x : A) (xs : List A)
      → ((f i x ≡ pass tt)
          × ((k : ℕ) (y : A) → get_elem? xs k ≡ some y → f (i + 1 + k) y ≡ pass tt))
        ↔ ((k : ℕ) (y : A) → get_elem? (x ∷ xs) k ≡ some y → f (i + k) y ≡ pass tt)
  split_index i x xs = (there, back)
    where
      there :
          (f i x ≡ pass tt)
            × ((k : ℕ) (y : A) → get_elem? xs k ≡ some y → f (i + 1 + k) y ≡ pass tt)
          → (k : ℕ) (y : A) → get_elem? (x ∷ xs) k ≡ some y
          → f (i + k) y ≡ pass tt
      there h zero y g = ap₂ f (omega arith) (sym (some-injective x y g)) ∙ h.0
      there h (suc k) y g = ap (λ n. f n y) (omega arith) ∙ h.1 k y g

      back :
          ((k : ℕ) (y : A) → get_elem? (x ∷ xs) k ≡ some y → f (i + k) y ≡ pass tt)
          → (f i x ≡ pass tt)
            × ((k : ℕ) (y : A) → get_elem? xs k ≡ some y → f (i + 1 + k) y ≡ pass tt)
      back h = (
        ap (λ n. f n x) (omega arith) ∙ h 0 x refl,
        λ k y g. ap (λ n. f n y) (omega arith) ∙ h (suc k) y g,
      )

  pub check_each_iff :
      (n i : ℕ) (xs : List A)
      → n ≡ length xs
      → (check_each n i xs f ≡ pass tt)
        ↔ ((k : ℕ) (x : A) → get_elem? xs k ≡ some x → f (i + k) x ≡ pass tt)
  unfolding check_each
  check_each_iff zero i [] e = (λ h k x g. cc g, λ h. refl)
  check_each_iff zero i (x ∷ xs) e = absurd (omega arith)
  check_each_iff (suc n) i [] e = absurd (omega arith)
  check_each_iff (suc n) i (x ∷ xs) e =
      let rest = check_each_iff n (i + 1) xs (omega arith) in
      let now = >>-iff (f i x) (check_each n (i + 1) xs f) in
      (
        λ h. (split_index i x xs).0 ((now.0 h).0, rest.0 (now.0 h).1),
        λ h. now.1 (((split_index i x xs).1 h).0, rest.1 ((split_index i x xs).1 h).1),
      )

  -- A loop over the whole array.
  pub check_all_iff :
      (n : ℕ) (xs : List A)
      → n ≡ length xs
      → (check_each n 0 xs f ≡ pass tt)
        ↔ ((k : ℕ) (x : A) → get_elem? xs k ≡ some x → f k x ≡ pass tt)
  check_all_iff n xs e = (
    λ h k x g. ap (λ m. f m x) (omega arith) ∙ (check_each_iff n 0 xs e).0 h k x g,
    λ h. (check_each_iff n 0 xs e).1 (λ k x g. ap (λ m. f m x) (omega arith) ∙ h k x g),
  )
