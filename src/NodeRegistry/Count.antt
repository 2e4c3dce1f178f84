-- ===== src/NodeRegistry/Count.antt =====
-- `online_count` against what `get` tells.
use picomesh.Base.{
  ℕ, zero, suc, ◌+◌, ◌≤◌, ◌<◌, ◌≡◌, ◌≢◌, refl, ◌∙◌, ap, sym, Bool, true, false, none, some, arith,
}
use picomesh.Base.{if◌then◌else◌}
use native.Mathlib.Decide.{ℕ_discrete}
use picomesh.Base.{Bool-cases, inl, inr, ◌==◌}
use picomesh.NodeRegistry.{
  NodeStatus, NodeRegistry, IsValid, max_nodes, observe, get, count_from, online_count,
}
use picomesh.NodeRegistry.View.{get-observe}

abbrev pub is_online : NodeRegistry → ℕ → Bool
is_online r n = elim (get r n) [ none ↦ false | some st ↦ st.online ]

-- How many of the numbers from `i` up to `i + left` pass a test.
pub tally : ℕ → (ℕ → Bool) → ℕ → ℕ
tally zero p i = 0
tally (suc left) p i = tally left p (suc i) + (if p i then 1 else 0)

tally-le : (left : ℕ) (p : ℕ → Bool) (i : ℕ) → tally left p i ≤ left
unfolding tally
tally-le zero p i = omega arith
tally-le (suc left) p i = ground (arith, tally-le left p (suc i))

module _ (p q : ℕ → Bool) (n : ℕ) (others : (m : ℕ) → m ≢ n → q m ≡ p m) where
  tally-above : (left i : ℕ) → n < i → tally left q i ≡ tally left p i
  unfolding tally
  tally-above zero i h = refl
  tally-above (suc left) i h = ground (arith, tally-above left (suc i) (omega arith), others i)

  tally-raise :
      (left i : ℕ)
      → q n ≡ true
      → i ≤ n
      → n < i + left
      → tally left q i ≡ tally left p i + (if p n then 0 else 1)
  unfolding tally
  tally-raise zero i on lo hi = absurd (omega arith)
  tally-raise (suc left) i on lo hi = elim (ℕ_discrete i n) [
    | yes e ↦ ground (arith, tally-above left (suc i) (omega arith), ap p e, ap q e)
    | no ne ↦ ground (arith, tally-raise left (suc i) on (omega arith) (omega arith), others i)
  ]

count_from-tally :
    (left : ℕ) (r : NodeRegistry) (i count : ℕ)
    → i + left ≤ max_nodes
    → count_from left r i count ≡ count + tally left (is_online r) i
unfolding count_from tally get
count_from-tally zero r i count fits = omega arith
count_from-tally (suc left) r i count fits =
    ground
      (arith, count_from-tally left r (suc i) (count + 1), count_from-tally left r (suc i) count)

-- `online_count` is the number of node ids for which `get` tells an online status.
pub online_count-tally : (r : NodeRegistry) → online_count r ≡ tally max_nodes (is_online r) 0
unfolding online_count
online_count-tally r = omega (arith, count_from-tally max_nodes r 0 0 (omega arith))

online_count-le : (r : NodeRegistry) → online_count r ≤ max_nodes
online_count-le r = omega (arith, online_count-tally r, tally-le max_nodes (is_online r) 0)

-- On a valid registry, hearing a node in range raises the number of online nodes by one if the
-- node was not online, and leaves it as it is otherwise.
online_count-observe :
    (r : NodeRegistry) (n s now : ℕ)
    → IsValid r
    → n < max_nodes
    → online_count (observe r n s now).0 ≡ online_count r + (if is_online r n then 0 else 1)
online_count-observe r n s now v lt =
    online_count-tally (observe r n s now).0
    ∙ tally-raise (is_online r) (is_online (observe r n s now).0) n
        (λ m ne. ground (arith, get-observe r n s now m v)) max_nodes 0
        (ground (arith, get-observe r n s now n v)) (omega arith) (omega arith)
    ∙ ap (λ k. k + (if is_online r n then 0 else 1)) (sym (online_count-tally r))

tally-zero : (q : ℕ → Bool) → ((m : ℕ) → q m ≡ false) → (left i : ℕ) → tally left q i ≡ 0
unfolding tally
tally-zero q off zero i = refl
tally-zero q off (suc left) i = ground (arith, tally-zero q off left (suc i), off i)

-- A registry that knows one node counts that node, if it is online.
pub online_count-single :
    (r : NodeRegistry) (n : ℕ) (st : NodeStatus)
    → n < max_nodes
    → ((m : ℕ) → get r m ≡ (if m == n then some st else none))
    → online_count r ≡ (if st.online then 1 else 0)
online_count-single r n st lt one = elim (Bool-cases st.online) [
  | inl on ↦
      let raised =
        tally-raise (λ m. false) (is_online r) n (λ m ne. ground (arith, one m, ne)) max_nodes 0
          (ground (arith, one n, on)) (omega arith) (omega arith) in
      rw on (
        omega
          (arith, online_count-tally r, raised, tally-zero (λ m. false) (λ m. refl) max_nodes 0))
  | inr off ↦ rw off (
      online_count-tally r ∙ tally-zero (is_online r) (λ m. ground (arith, one m, off)) max_nodes 0)
]
