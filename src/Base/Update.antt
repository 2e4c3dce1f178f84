-- ===== src/Base/Update.antt =====
-- Reading an array after a write, in one equation.
use Prim.Native.Nat.{ℕ, ◌<◌}
use mathlib.Core.Path.{◌≡◌, ◌∙◌, ap}
use mathlib.Core.List.{List}
use native.Mathlib.Decide.{ℕ_discrete}
use picomesh.Base.Lists.{length, get_or, set, get_or-set_self, get_or-set_ne}
use picomesh.Base.Tests.{◌==◌, if◌then◌else◌, eq→==, ne→not-==}

pub get_or-set {ℓ} :
    {A : Type ℓ} (xs : List A) (i j : ℕ) (v d : A)
    → i < length xs
    → get_or (set xs i v) j d ≡ (if j == i then v else get_or xs j d)
get_or-set xs i j v d h = elim (ℕ_discrete j i) [
  | yes e ↦ rw (eq→== j i e) (ap (λ k. get_or (set xs i v) k d) e ∙ get_or-set_self xs i v d h)
  | no ne ↦ rw (ne→not-== j i ne) (get_or-set_ne xs i j v d (λ e. ne (cc)))
]
