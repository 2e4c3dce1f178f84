-- ===== src/Tests/Nodes.antt =====
-- The node registry and the sequence tracker at concrete nodes and times.
use picomesh.Base.{ℕ, ◌+◌, ◌≤◌, ◌≡◌, ◌↔◌, refl, List, [], ◌∷◌, true, false, some, arith}
use picomesh.Base.{replicate, u32}
use picomesh.NodeRegistry
use picomesh.NodeRegistry.{
  NodeRegistry, new_registry, refresh, get, online_count, seen_status, refresh_from, refresh_node,
  count_from,
}
use picomesh.NodeRegistry.View.{new_registry-IsValid}
use picomesh.NodeRegistry.Timeout.{
  Call, hears, refreshes, run, online_within_timeout, online_after_turns,
}
use picomesh.SequenceTracker
use picomesh.SequenceTracker.{
  SequenceTracker, SequenceState, first, newer, duplicate, stale, invalid_node, new_tracker,
}
use picomesh.SequenceTracker.Order.{After, observe_iff, observe_all, observe_all-counting}

-- Seen at 500 with a timeout of 1000: online at 1200, no more at 1501.
timeout_passes :
    (online_count (refresh (NodeRegistry.observe (new_registry 1000) 2 1 500).0 1200) ≡ 1)
    × (online_count (refresh (NodeRegistry.observe (new_registry 1000) 2 1 500).0 1501) ≡ 0)
unfolding online_count count_from refresh refresh_from refresh_node NodeRegistry.observe
    new_registry
timeout_passes = (refl, refl)

-- Another node is heard, and the registry is refreshed, in between.
abbrev between : List Call
between = hears 4 1 4294967290 ∷ refreshes 10 ∷ []

online_within_timeout_example :
    get (refresh (run (NodeRegistry.observe (new_registry 100) 3 9 4294967245).0 between) 25) 3
    ≡ some (record (seen_status 3 9 4294967245) { online = true })
unfolding new_registry
online_within_timeout_example =
    online_within_timeout (new_registry 100) 3 9 4294967245 76 between (new_registry-IsValid 100)
      (omega arith) (omega arith) (omega arith)

online_after_turns_example :
    get
      (refresh
        (run (NodeRegistry.observe (new_registry 100) 3 9 500).0 between)
        (u32 (500 + 4294967346)))
      3
    ≡ some (seen_status 3 9 500)
unfolding new_registry
online_after_turns_example =
    online_after_turns (new_registry 100) 3 9 500 4294967346 between (new_registry-IsValid 100)
      (omega arith) (omega arith) 1 (omega arith) (omega arith) (omega arith)

-- A tracker that has heard sequence 254 from node 1.
abbrev heard : SequenceTracker
heard = record {
  last_sequence = 0 ∷ 254 ∷ replicate 30 0;
  seen = false ∷ true ∷ replicate 30 false;
}

heard-IsValid : SequenceTracker.IsValid heard
heard-IsValid = record { last_size = refl; seen_size = refl }

wrap_states :
    (SequenceTracker.observe new_tracker 1 254 ≡ (heard, first))
    × (observe_all heard 1 (255 ∷ 0 ∷ 0 ∷ 250 ∷ []) ≡ newer ∷ newer ∷ duplicate ∷ stale ∷ [])
    × ((SequenceTracker.observe heard 40 1).1 ≡ invalid_node)
unfolding SequenceTracker.observe
wrap_states = (refl, refl, refl)

observe_iff_example :
    (((SequenceTracker.observe heard 1 3).1 ≡ newer)
      ↔ ((d : ℕ) × (1 ≤ d) × (d ≤ 127) × After d 254 3))
    × (((SequenceTracker.observe heard 1 3).1 ≡ stale)
        ↔ ((d : ℕ) × (128 ≤ d) × (d ≤ 255) × After d 254 3))
    × (((SequenceTracker.observe heard 1 3).1 ≡ duplicate) ↔ (◌≡◌ {A = ℕ} 3 254))
observe_iff_example =
    observe_iff heard 1 254 3 heard-IsValid (omega arith) refl (omega arith) (omega arith)

observe_all-counting_example : observe_all heard 1 (255 ∷ 0 ∷ 1 ∷ []) ≡ newer ∷ newer ∷ newer ∷ []
observe_all-counting_example =
    observe_all-counting 3 heard 1 254 heard-IsValid (omega arith) (omega arith) refl
