-- ===== src/Base/Words.antt =====
-- Casts to the fixed widths, wrapping differences, and lists of bytes.
use Prim.Native.Nat.{ℕ, zero, suc, ◌+◌, ◌-◌, ◌%◌, ◌^◌, ◌≤◌, ◌<◌, ◌*◌, bit_and, bit_or, bit_xor}
use mathlib.Core.Path.{◌≡◌, refl, sym, ◌∙◌, ap, subst}
use mathlib.Core.List.{List, [], ◌∷◌, ◌++◌}
use mathlib.Core.Option.{Option}
use native.Mathlib.Omega.{arith}
use native.Mathlib.Decide.{ℕ_discrete}
use picomesh.Base.Lists.{get_or, take, drop, set, replicate}

abbrev pub u8 : ℕ → ℕ
u8 n = n % 2 ^ 8

abbrev pub u32 : ℕ → ℕ
u32 n = n % 2 ^ 32

-- `uint8_t` and `uint32_t` differences; the modulus is added first since `-` stops at 0.
abbrev pub sub8 : ℕ → ℕ → ℕ
sub8 a b = u8 (a + 2 ^ 8 - b)

abbrev pub sub32 : ℕ → ℕ → ℕ
sub32 a b = u32 (a + 2 ^ 32 - b)

abbrev pub AllBytes : List ℕ → Type 0
AllBytes [] = Unit
AllBytes (x ∷ xs) = (x < 256) × AllBytes xs

pub AllBytes-append : (xs ys : List ℕ) → AllBytes xs → AllBytes ys → AllBytes (xs ++ ys)
AllBytes-append [] ys hx hy = hy
AllBytes-append (x ∷ xs) ys hx hy = (hx.0, AllBytes-append xs ys hx.1 hy)

pub AllBytes-take : (n : ℕ) (xs : List ℕ) → AllBytes xs → AllBytes (take n xs)
AllBytes-take zero xs h = tt
AllBytes-take (suc n) [] h = tt
AllBytes-take (suc n) (x ∷ xs) h = (h.0, AllBytes-take n xs h.1)

pub AllBytes-drop : (n : ℕ) (xs : List ℕ) → AllBytes xs → AllBytes (drop n xs)
AllBytes-drop zero xs h = h
AllBytes-drop (suc n) [] h = tt
AllBytes-drop (suc n) (x ∷ xs) h = AllBytes-drop n xs h.1

pub AllBytes-replicate : (n : ℕ) → AllBytes (replicate n 0)
AllBytes-replicate zero = tt
AllBytes-replicate (suc n) = (omega arith, AllBytes-replicate n)

pub AllBytes-set : (xs : List ℕ) (i v : ℕ) → AllBytes xs → v < 256 → AllBytes (set xs i v)
AllBytes-set [] i v h lt = tt
AllBytes-set (x ∷ xs) zero v h lt = (lt, h.1)
AllBytes-set (x ∷ xs) (suc i) v h lt = (h.0, AllBytes-set xs i v h.1 lt)

pub AllBytes-get_or : (xs : List ℕ) (i : ℕ) → AllBytes xs → get_or xs i 0 < 256
AllBytes-get_or [] i h = omega arith
AllBytes-get_or (x ∷ xs) zero h = h.0
AllBytes-get_or (x ∷ xs) (suc i) h = AllBytes-get_or xs i h.1

-- The results of a function on `count` numbers from `start` on: functions with the same results
-- agree there.
outputs : (ℕ → ℕ) → ℕ → ℕ → List ℕ
outputs f start zero = []
outputs f start (suc count) = f start ∷ outputs f (suc start) count

get_or-outputs :
    (f : ℕ → ℕ) (count start x : ℕ)
    → start ≤ x
    → x < start + count
    → get_or (outputs f start count) (x - start) 0 ≡ f x
unfolding outputs
get_or-outputs f zero start x from to = absurd (omega arith)
get_or-outputs f (suc count) start x from to = elim (ℕ_discrete x start) [
  | yes e ↦ let first : 0 ≡ x - start = omega arith in subst here first (sym (ap f e))
  | no ne ↦
      let later : suc (x - suc start) ≡ x - start = omega arith in
      subst here later (get_or-outputs f count (suc start) x (omega arith) (omega arith))
]
  where
    here : ℕ → Type 0
    here k = get_or (f start ∷ outputs f (suc start) count) k 0 ≡ f x

same_outputs : (f g : ℕ → ℕ) → outputs f 0 256 ≡ outputs g 0 256 → (x : ℕ) → x < 256 → f x ≡ g x
same_outputs f g e x h =
    sym (get_or-outputs f 256 0 x (omega arith) h)
    ∙ ap (λ ys. get_or ys (x - 0) 0) e
    ∙ get_or-outputs g 256 0 x (omega arith) h

-- Setting the lowest bit of a byte adds one if it is even, so a byte stays a byte.
pub bit_or_one : (x : ℕ) → x < 256 → bit_or x 1 ≡ x + (1 - x % 2)
unfolding outputs
bit_or_one = same_outputs (λ x. bit_or x 1) (λ x. x + (1 - x % 2)) refl

-- The bit is then set.
pub bit_and-bit_or_one : (x : ℕ) → x < 256 → bit_and (bit_or x 1) 1 ≡ 1
unfolding outputs
bit_and-bit_or_one = same_outputs (λ x. bit_and (bit_or x 1) 1) (λ x. 1) refl

-- Flipping the lowest bit of a byte gives another byte.
pub bit_xor_one : (x : ℕ) → x < 256 → bit_xor x 1 ≡ x + 1 - 2 * (x % 2)
unfolding outputs
bit_xor_one = same_outputs (λ x. bit_xor x 1) (λ x. x + 1 - 2 * (x % 2)) refl

-- A `const uint8_t*`: null, or the bytes from there on. A read behind them gives 0; the lemmas on
-- prefixes show where the program makes none.
abbrev pub Pointer : Type 0
Pointer = Option (List ℕ)
