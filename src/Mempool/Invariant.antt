-- ===== src/Mempool/Invariant.antt =====
-- Entries with distinct ids and addresses.
use vulkan_core.Common.{
  ℕ, ◌+◌, ◌<◌, ◌≡◌, ◌≢◌, sym, ◌∙◌, true, false, List, [], ◌∷◌, ◌++◌, length, All, ◌==◌, arith,
  same_bytes_iff, Bool-cases, inl, inr,
}
use vulkan_core.Exec.{Outcome, ok, error, fault}
use vulkan_core.Crypto.{compare_hash}
use vulkan_core.Mempool.{Entry, erase, stands_in, find_entry, found}

abbrev pub Differ : Entry → Entry → Type 0
Differ d e = (d.tx.id ≢ e.tx.id) × (d.address ≢ e.address)

abbrev pub Distinct : List Entry → Type 0
Distinct [] = Unit
Distinct (e ∷ es) = All (Differ e) es × Distinct es

abbrev pub Below : ℕ → Entry → Type 0
Below n e = e.address < n

pub All-erase : (P : Entry → Type 0) (p : ℕ) (es : List Entry) → All P es → All P (erase p es)
unfolding erase
All-erase P p [] ps = tt
All-erase P p (e ∷ es) ps = elim (Bool-cases (e.address == p)) [
  | inl h ↦ rw h ps.1
  | inr h ↦ rw h (ps.0, All-erase P p es ps.1)
]

pub Distinct-erase : (p : ℕ) (es : List Entry) → Distinct es → Distinct (erase p es)
unfolding erase
Distinct-erase p [] d = tt
Distinct-erase p (e ∷ es) d = elim (Bool-cases (e.address == p)) [
  | inl h ↦ rw h d.1
  | inr h ↦ rw h (All-erase (Differ e) p es d.0, Distinct-erase p es d.1)
]

pub length-erase :
    (p : ℕ) (es : List Entry) → stands_in p es ≡ true → length (erase p es) + 1 ≡ length es
unfolding erase stands_in
length-erase p [] h = cc h
length-erase p (e ∷ es) h = ground (arith, length-erase p es)

-- An entry whose id is not found differs from all.
pub All-snoc :
    (P : Entry → Type 0) (es : List Entry) (e : Entry) → All P es → P e → All P (es ++ e ∷ [])
All-snoc P [] e ps p = (p, tt)
All-snoc P (d ∷ es) e ps p = (ps.0, All-snoc P es e ps.1 p)

pub Distinct-snoc :
    (es : List Entry) (e : Entry)
    → Distinct es
    → All (Below e.address) es
    → found (find_entry e.tx.id es) ≡ false
    → Distinct (es ++ e ∷ [])
unfolding find_entry
Distinct-snoc [] e d b h = (tt, tt)
Distinct-snoc (c ∷ es) e d b h = elim (Bool-cases (compare_hash c.tx.id e.tx.id)) [
  | inl s ↦ cc (rw s at h)
  | inr s ↦ (
    All-snoc (Differ c) es e d.0 (
      λ same. cc (sym s ∙ (same_bytes_iff c.tx.id e.tx.id).1 same),
      λ same. absurd (omega (arith, same, b.0)),
    ),
    Distinct-snoc es e d.1 b.1 (rw s at h),
  )
]

pub All-Below : (n : ℕ) (es : List Entry) → All (Below n) es → All (Below (n + 1)) es
All-Below n [] b = tt
All-Below n (e ∷ es) b = (omega (arith, b.0), All-Below n es b.1)

-- What holds of the state that a call leaves, unless it faults.
abbrev pub Within : {S A : Type 0} → (S → Type 0) → Outcome S A → Type 0
Within P fault = Unit
Within P (error s) = P s
Within P (ok _ s) = P s
