-- ===== src/Base/Copy.antt =====
-- `std::copy_n` between arrays, and the copy loops written out in the transports.
use Prim.Native.Nat.{ℕ, zero, suc, ◌+◌, ◌≤◌}
use mathlib.Core.Path.{◌≡◌, refl, sym, ◌∙◌, ap}
use mathlib.Core.List.{List, [], ◌∷◌, ◌++◌, append_assoc}
use native.Mathlib.Omega.{arith}
use picomesh.Base.Words.{AllBytes, AllBytes-set, AllBytes-get_or}
use picomesh.Base.Lists.{
  length, get_or, take, drop, set, drop-cons, set-append, length-append, length-set,
}

-- Copies `count` elements of `source` from index `i` on into `target` from index `j` on.
unfoldable pub copy_n : ℕ → List ℕ → ℕ → List ℕ → ℕ → List ℕ
copy_n zero source i target j = target
copy_n (suc count) source i target j =
    copy_n count source (suc i) (set target j (get_or source i 0)) (suc j)

-- What stands before the target index and behind the copied elements is untouched.
pub copy_n_lem :
    (count : ℕ) (source : List ℕ) (i : ℕ) (before target : List ℕ) (j : ℕ)
    → i + count ≤ length source
    → count ≤ length target
    → j ≡ length before
    → copy_n count source i (before ++ target) j
      ≡ before ++ (take count (drop i source) ++ drop count target)
unfolding copy_n
copy_n_lem zero source i before target j fits room at = refl
copy_n_lem (suc count) source i before [] j fits room at = absurd (omega arith)
copy_n_lem (suc count) source i before (y ∷ target) j fits room at =
    rw (set-append before y v target j at, drop-cons i source 0 (omega arith))
      (ap (λ xs. copy_n count source (suc i) xs (suc j)) (sym (append_assoc before (v ∷ []) target))
        ∙ copy_n_lem count source (suc i) (before ++ v ∷ []) target (suc j) (omega arith)
            (omega arith) (omega (arith, length-append before (v ∷ [])))
        ∙ append_assoc before (v ∷ []) (take count (drop (suc i) source) ++ drop count target))
  where
    v : ℕ
    v = get_or source i 0

pub length-copy_n :
    (count : ℕ) (source : List ℕ) (i : ℕ) (target : List ℕ) (j : ℕ)
    → length (copy_n count source i target j) ≡ length target
unfolding copy_n
length-copy_n zero source i target j = refl
length-copy_n (suc count) source i target j =
    length-copy_n count source (suc i) (set target j (get_or source i 0)) (suc j) ∙ length-set _ _ _

pub AllBytes-copy_n :
    (count : ℕ) (source : List ℕ) (i : ℕ) (target : List ℕ) (j : ℕ)
    → AllBytes source
    → AllBytes target
    → AllBytes (copy_n count source i target j)
unfolding copy_n
AllBytes-copy_n zero source i target j hs ht = ht
AllBytes-copy_n (suc count) source i target j hs ht =
    AllBytes-copy_n count source (suc i) (set target j (get_or source i 0)) (suc j) hs
      (AllBytes-set target j (get_or source i 0) ht (AllBytes-get_or source i hs))
