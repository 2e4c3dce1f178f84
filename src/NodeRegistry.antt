-- ===== src/NodeRegistry.antt =====
-- include/picomesh/node_registry.h and src/node_registry.cpp: which nodes are alive.
pub mod View
pub mod Timeout
pub mod Count
use picomesh.Base.{
  ℕ, zero, suc, ◌+◌, ◌≡◌, List, Bool, true, false, not, ◌&&◌, ◌||◌, Option, none, some,
}
use picomesh.Base.{get_or, set, replicate, length, ltb, leb, if◌then◌else◌, sub32}

abbrev pub max_nodes : ℕ
max_nodes = 32

pub record NodeStatus : Type 0 where
  pub node_id : ℕ
  pub last_sequence : ℕ
  pub last_seen_ms : ℕ
  pub online : Bool

-- `NodeStatus{}`
abbrev pub default_status : NodeStatus
default_status = record { node_id = 0; last_sequence = 0; last_seen_ms = 0; online = false }

pub record NodeRegistry : Type 0 where
  pub nodes : List NodeStatus
  pub present : List Bool
  pub timeout_ms : ℕ

-- The two arrays have 32 elements.
pub record IsValid (r : NodeRegistry) : Type 0 where
  pub nodes_size : length r.nodes ≡ max_nodes
  pub present_size : length r.present ≡ max_nodes

unfoldable pub new_registry : ℕ → NodeRegistry
new_registry timeout_ms = record {
  nodes = replicate max_nodes default_status;
  present = replicate max_nodes false;
  timeout_ms = timeout_ms;
}

abbrev pub node_at : NodeRegistry → ℕ → NodeStatus
node_at r i = get_or r.nodes i default_status

abbrev pub is_present : NodeRegistry → ℕ → Bool
is_present r i = get_or r.present i false

-- What `observe` records about a node.
abbrev pub seen_status : ℕ → ℕ → ℕ → NodeStatus
seen_status node_id sequence now_ms = record {
  node_id = node_id;
  last_sequence = sequence;
  last_seen_ms = now_ms;
  online = true;
}

unfoldable pub observe : NodeRegistry → ℕ → ℕ → ℕ → NodeRegistry × Bool
observe r node_id sequence now_ms = if leb max_nodes node_id then (r, false) else (
  record r {
    nodes = set r.nodes node_id (seen_status node_id sequence now_ms);
    present = set r.present node_id true;
  },
  true,
)

-- One round of the loop in `refresh`.
unfoldable pub refresh_node : NodeRegistry → ℕ → ℕ → NodeRegistry
refresh_node r now_ms i =
    if not (is_present r i)
    then r
    else let node = node_at r i in
      let elapsed = sub32 now_ms node.last_seen_ms in
      record r { nodes = set r.nodes i (record node { online = leb elapsed r.timeout_ms }) }

unfoldable pub refresh_from : ℕ → NodeRegistry → ℕ → ℕ → NodeRegistry
refresh_from zero r now_ms i = r
refresh_from (suc left) r now_ms i = refresh_from left (refresh_node r now_ms i) now_ms (suc i)

unfoldable pub refresh : NodeRegistry → ℕ → NodeRegistry
refresh r now_ms = refresh_from max_nodes r now_ms 0

unfoldable pub get : NodeRegistry → ℕ → Option NodeStatus
get r node_id =
    if leb max_nodes node_id || not (is_present r node_id) then none else some (node_at r node_id)

unfoldable pub count_from : ℕ → NodeRegistry → ℕ → ℕ → ℕ
count_from zero r i count = count
count_from (suc left) r i count =
    count_from left r (suc i) (if is_present r i && (node_at r i).online then count + 1 else count)

unfoldable pub online_count : NodeRegistry → ℕ
online_count r = count_from max_nodes r 0 0
