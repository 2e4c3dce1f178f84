-- ===== src/Checksum.antt =====
-- include/picomesh/checksum.h and src/checksum.cpp: the 8-bit two's-complement checksum.
pub mod Laws
use picomesh.Base.{ℕ, zero, suc, ◌+◌, List, Bool, true, false, none, some}
use picomesh.Base.{Pointer, u8, sub32, get_or, ◌==◌, if◌then◌else◌}

-- The loop of both functions, from index `i` on with `left` rounds left.
unfoldable pub sum_from : List ℕ → ℕ → ℕ → ℕ → ℕ
sum_from bytes zero i sum = sum
sum_from bytes (suc left) i sum = sum_from bytes left (suc i) (u8 (sum + get_or bytes i 0))

-- `0u - sum` is an `unsigned int`.
unfoldable pub checksum8 : Pointer → ℕ → ℕ
unfolding sum_from
checksum8 none count = 0
checksum8 (some bytes) count = u8 (sub32 0 (sum_from bytes count 0 0))

unfoldable pub verify_checksum8 : Pointer → ℕ → Bool
unfolding sum_from
verify_checksum8 none count = false
verify_checksum8 (some bytes) count = if count == 0 then false else (sum_from bytes count 0 0 == 0)
