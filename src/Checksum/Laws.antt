-- ===== src/Checksum/Laws.antt =====
-- What the checksum promises, against the plain sum of the bytes.
use picomesh.Base.{ℕ, zero, suc, ◌+◌, ◌-◌, ◌%◌, ◌≤◌, ◌<◌, ◌≡◌, sym, ◌∙◌, ap, ◌↔◌, ◌≢◌}
use picomesh.Base.{List, [], ◌∷◌, ◌++◌, append-nil, none, some, true, false, arith}
use picomesh.Base.{Pointer, u8, AllBytes, length, get_or, take, drop, set, drop-cons, length-append}
use picomesh.Base.{
  take-set, get_or-take, AllBytes-get_or, Bool-cases, take-append, length-set, length-take,
}
use picomesh.Checksum.{sum_from, checksum8, verify_checksum8}

-- The sum that is not cut off.
abbrev pub total : List ℕ → ℕ
total [] = 0
total (x ∷ xs) = x + total xs

pub total-append : (xs ys : List ℕ) → total (xs ++ ys) ≡ total xs + total ys
total-append [] ys = omega arith
total-append (x ∷ xs) ys = omega (arith, total-append xs ys)

pub total-set :
    (xs : List ℕ) (i v : ℕ) → i < length xs → total (set xs i v) + get_or xs i 0 ≡ total xs + v
total-set [] i v h = absurd (omega arith)
total-set (x ∷ xs) zero v h = omega arith
total-set (x ∷ xs) (suc i) v h = omega (arith, total-set xs i v (omega arith))

-- The loop adds up the bytes from `i` on modulo 256.
sum_from-total :
    (bytes : List ℕ) (left i sum : ℕ)
    → i + left ≤ length bytes
    → sum < 256
    → sum_from bytes left i sum ≡ (sum + total (take left (drop i bytes))) % 256
unfolding sum_from
sum_from-total bytes zero i sum fits h = omega arith
sum_from-total bytes (suc left) i sum fits h = rw (drop-cons i bytes 0 (omega arith)) (
    omega (
      arith,
      sum_from-total bytes left (suc i) (u8 (sum + get_or bytes i 0)) (omega arith) (omega arith),
    ))

pub checksum8-total :
    (bytes : List ℕ) (count : ℕ)
    → count ≤ length bytes
    → checksum8 (some bytes) count ≡ (256 - total (take count bytes) % 256) % 256
unfolding checksum8
checksum8-total bytes count fits =
    omega (arith, sum_from-total bytes count 0 0 (omega arith) (omega arith))

checksum8-lt : (bytes : Pointer) (count : ℕ) → checksum8 bytes count < 256
unfolding checksum8
checksum8-lt none count = omega arith
checksum8-lt (some bytes) count = omega arith

-- The check accepts a buffer exactly when its first `count` bytes, at least one, sum up to a
-- multiple of 256.
pub verify_checksum8-total :
    (bytes : List ℕ) (count : ℕ)
    → count ≤ length bytes
    → (verify_checksum8 (some bytes) count ≡ true)
      ↔ ((count ≢ 0) × (total (take count bytes) % 256 ≡ 0))
unfolding verify_checksum8
verify_checksum8-total bytes count fits =
    ground (arith, sum_from-total bytes count 0 0 (omega arith) (omega arith))

-- A buffer followed by one more byte passes the check exactly if that byte is the checksum of the
-- buffer.
verify_checksum8-append :
    (bytes : List ℕ) (c : ℕ)
    → c < 256
    → (verify_checksum8 (some (bytes ++ c ∷ [])) (length bytes + 1) ≡ true)
      ↔ (c ≡ checksum8 (some bytes) (length bytes))
verify_checksum8-append bytes c h = ground (
  arith,
  verify_checksum8-total (bytes ++ c ∷ []) (length bytes + 1),
  checksum8-total bytes (length bytes),
  length-append bytes (c ∷ []),
  take_whole (bytes ++ c ∷ []) (length bytes + 1),
  take_whole bytes (length bytes),
  total-append bytes (c ∷ []),
)
  where
    take_whole : (xs : List ℕ) (n : ℕ) → n ≡ length xs → take n xs ≡ xs
    take_whole xs n e = ap (take n) (sym (append-nil xs)) ∙ take-append xs [] n e

-- If a buffer of bytes passes the check, it fails it once any one of its bytes is replaced by
-- another byte.
verify_checksum8-set :
    (bytes : List ℕ) (count i v : ℕ)
    → count ≤ length bytes
    → AllBytes bytes
    → i < count
    → v < 256
    → v ≢ get_or bytes i 0
    → verify_checksum8 (some bytes) count ≡ true
    → verify_checksum8 (some (set bytes i v)) count ≡ false
verify_checksum8-set bytes count i v fits all at hv ne good = ground (
  arith,
  verify_checksum8-total bytes count fits,
  verify_checksum8-total (set bytes i v) count,
  length-set bytes i v,
  ap total (take-set count i bytes v),
  total-set (take count bytes) i v,
  length-take count bytes,
  get_or-take count bytes i 0 at,
  AllBytes-get_or bytes i all,
  Bool-cases (verify_checksum8 (some (set bytes i v)) count),
)
