-- ===== src/SequenceTracker.antt =====
-- include/picomesh/sequence_tracker.h and src/sequence_tracker.cpp: newer, duplicate and stale
-- sequence numbers for each node.
pub mod View
pub mod Order
use picomesh.Base.{ℕ, ◌≡◌, List, Bool, true, false, not, length, get_or, set, replicate}
use picomesh.Base.{ltb, leb, ◌==◌, if◌then◌else◌, sub8}
use picomesh.NodeRegistry.{max_nodes}

pub data SequenceState : Type 0 where
  first newer duplicate stale invalid_node : SequenceState

pub record SequenceTracker : Type 0 where
  pub last_sequence : List ℕ
  pub seen : List Bool

-- The two arrays have 32 elements.
pub record IsValid (t : SequenceTracker) : Type 0 where
  pub last_size : length t.last_sequence ≡ max_nodes
  pub seen_size : length t.seen ≡ max_nodes

abbrev pub new_tracker : SequenceTracker
new_tracker = record { last_sequence = replicate max_nodes 0; seen = replicate max_nodes false }

unfoldable pub observe : SequenceTracker → ℕ → ℕ → SequenceTracker × SequenceState
observe t node_id sequence =
    if leb max_nodes node_id
    then (t, invalid_node)
    else if not (get_or t.seen node_id false)
    then (
      record t {
        seen = set t.seen node_id true;
        last_sequence = set t.last_sequence node_id sequence;
      },
      first,
    )
    else let delta = sub8 sequence (get_or t.last_sequence node_id 0) in
      if delta == 0
      then (t, duplicate)
      else if ltb delta 128
      then (record t { last_sequence = set t.last_sequence node_id sequence }, newer)
      else (t, stale)

unfoldable pub reset : SequenceTracker → ℕ → SequenceTracker
reset t node_id =
    if ltb node_id max_nodes
    then record t { seen = set t.seen node_id false; last_sequence = set t.last_sequence node_id 0 }
    else t

unfoldable pub reset_all : SequenceTracker → SequenceTracker
reset_all t = record t { seen = replicate max_nodes false; last_sequence = replicate max_nodes 0 }
