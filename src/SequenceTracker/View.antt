-- ===== src/SequenceTracker/View.antt =====
-- The tracker as a map from node ids to the last accepted sequence.
use picomesh.Base.{ℕ, ◌+◌, ◌-◌, ◌%◌, ◌≡◌, refl, true, false, ◌&&◌, Option, none, some, arith}
use picomesh.Base.{get_or, length-set, get_or-replicate, get_or-set, ltb, leb, ◌==◌, if◌then◌else◌}
use picomesh.NodeRegistry.{max_nodes}
use picomesh.SequenceTracker.{
  SequenceState, first, newer, duplicate, stale, invalid_node, SequenceTracker, IsValid,
  new_tracker, observe, reset, reset_all,
}

-- The sequence remembered for a node.
abbrev pub last : SequenceTracker → ℕ → Option ℕ
last t n =
    if ltb n max_nodes && get_or t.seen n false then some (get_or t.last_sequence n 0) else none

new_tracker-IsValid : IsValid new_tracker
new_tracker-IsValid = record { last_size = refl; seen_size = refl }

pub observe-IsValid : {t : SequenceTracker} (n s : ℕ) → IsValid t → IsValid (observe t n s).0
unfolding observe
observe-IsValid {t} n s v = ground (arith, length-set t.seen n true, length-set t.last_sequence n s)

-- The half-range rule, on the distance forward from what is remembered.
abbrev pub judge : Option ℕ → ℕ → SequenceState
judge none s = first
judge (some l) s =
    let distance = (s + 256 - l) % 256 in
    if distance == 0 then duplicate else if leb distance 127 then newer else stale

-- What is remembered afterwards.
abbrev pub remember : Option ℕ → ℕ → Option ℕ
remember o s = elim (judge o s) [ first ↦ some s | newer ↦ some s | _ ↦ o ]

-- On a valid tracker, `observe` reports an id out of range and otherwise judges the sequence by
-- what is remembered for that node alone; it remembers it exactly if it is the first or newer,
-- and changes what is remembered for no other node.
pub observe_lem :
    (t : SequenceTracker) (n s m : ℕ)
    → IsValid t
    → ((observe t n s).1 ≡ (if ltb n max_nodes then judge (last t n) s else invalid_node))
      × (last (observe t n s).0 m
          ≡ (if ltb n max_nodes && (m == n) then remember (last t n) s else last t m))
unfolding observe
observe_lem t n s m v =
    ground (arith, get_or-set t.seen n m true false, get_or-set t.last_sequence n m s 0)

-- On a valid tracker, `reset` forgets the one node and no other, and `reset_all` forgets every
-- node.
reset_lem :
    (t : SequenceTracker) (n m : ℕ)
    → IsValid t
    → (last (reset t n) m ≡ (if m == n then none else last t m)) × (last (reset_all t) m ≡ none)
unfolding reset reset_all
reset_lem t n m v = (
  ground (arith, get_or-set t.seen n m false false, get_or-set t.last_sequence n m 0 0),
  ground (arith, get_or-replicate 32 m false),
)
