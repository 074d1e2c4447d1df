-- ===== src/Bytes.antt =====
-- Bytes of a machine word in memory order: src/common/byteorder.h and the shifts of
-- src/common/buffer_iterator.c.
pub mod Or
pub mod Word
use Prim.Native.Nat.{bit_or}
use vulkan_core.Common.{ℕ, zero, suc, ◌+◌, ◌*◌, ◌/◌, ◌%◌, ◌^◌, ◌<◌, List, [], ◌∷◌}

abbrev pub IsByte : ℕ → Type 0
IsByte b = b < 256

-- `x << k` on a value whose bits stay inside the word.
abbrev pub shl : ℕ → ℕ → ℕ
shl x k = x * 2 ^ k

-- The `n` bytes of a word as they stand in memory: `swap_le` makes the lowest byte the first on
-- every platform.
unfoldable pub le_bytes : ℕ → ℕ → List ℕ
le_bytes zero v = []
le_bytes (suc n) v = v % 256 ∷ le_bytes n (v / 256)

-- `data[n] << 8 * n | ... | data[1] << 8 | data[0] << 0`, the bytes starting at bit `shift`.
unfoldable pub or_bytes : ℕ → List ℕ → ℕ
or_bytes shift [] = 0
or_bytes shift (b ∷ []) = shl b shift
or_bytes shift (b ∷ c ∷ bs) = bit_or (or_bytes (shift + 8) (c ∷ bs)) (shl b shift)
