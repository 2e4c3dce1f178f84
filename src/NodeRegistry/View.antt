-- ===== src/NodeRegistry/View.antt =====
-- The registry as a map from node ids: what `get` tells after each operation.
use picomesh.Base.{
  ℕ, zero, suc, ◌+◌, ◌≤◌, ◌<◌, ◌≡◌, refl, ◌∙◌, ap, true, false, ◌&&◌, none, some, arith,
}
use picomesh.Base.{
  get_or, length-set, get_or-replicate, get_or-set, ltb, leb, ◌==◌, if◌then◌else◌, sub32,
}
use mathlib.Core.Option
use picomesh.NodeRegistry.{
  NodeStatus, NodeRegistry, IsValid, default_status, max_nodes, new_registry, node_at, is_present,
  seen_status, observe, refresh_node, refresh_from, refresh, get,
}

pub new_registry-IsValid : (timeout : ℕ) → IsValid (new_registry timeout)
unfolding new_registry
new_registry-IsValid timeout = record { nodes_size = refl; present_size = refl }

pub observe-IsValid : {r : NodeRegistry} (n s now : ℕ) → IsValid r → IsValid (observe r n s now).0
unfolding observe
observe-IsValid {r} n s now v =
    ground (arith, length-set r.present n true, length-set r.nodes n (seen_status n s now))

-- A new registry knows no node.
pub get-new_registry : (timeout n : ℕ) → get (new_registry timeout) n ≡ none
unfolding get new_registry
get-new_registry timeout n = rw (get_or-replicate 32 n false) (ground arith)

-- On a valid registry, `observe` reports whether the id is in range; if so, `get` then returns
-- the node as just seen and online, and for every other id what it returned before.
pub get-observe :
    (r : NodeRegistry) (n s now m : ℕ)
    → IsValid r
    → ((observe r n s now).1 ≡ ltb n max_nodes)
      × (get (observe r n s now).0 m
          ≡ (if ltb n max_nodes && (m == n) then some (seen_status n s now) else get r m))
unfolding get observe
get-observe r n s now m v = ground (
  arith,
  get_or-set r.nodes n m (seen_status n s now) default_status,
  get_or-set r.present n m true false,
)

-- What `refresh` makes of a node's status.
abbrev pub refreshed : ℕ → ℕ → NodeStatus → NodeStatus
refreshed timeout now st = record st { online = leb (sub32 now st.last_seen_ms) timeout }

-- The loop leaves presence and timeout alone, and refreshes the present nodes from `i` on.
record Swept (left i now : ℕ) (r r' : NodeRegistry) : Type 0 where
  valid : IsValid r'
  same_present : r'.present ≡ r.present
  same_timeout : r'.timeout_ms ≡ r.timeout_ms
  nodes_lem :
      (m : ℕ)
      → node_at r' m ≡ (
          if leb i m && ltb m (i + left) && is_present r m
          then refreshed r.timeout_ms now (node_at r m)
          else node_at r m)

node_at-refresh_node :
    (r : NodeRegistry) (now i m : ℕ)
    → IsValid r
    → i < max_nodes
    → node_at (refresh_node r now i) m ≡ (
        if (m == i) && is_present r m
        then refreshed r.timeout_ms now (node_at r m)
        else node_at r m)
unfolding refresh_node
node_at-refresh_node r now i m v lt =
    ground (arith, get_or-set r.nodes i m (refreshed r.timeout_ms now (node_at r i)) default_status)

refresh_node-rest :
    (r : NodeRegistry) (now i : ℕ)
    → IsValid r
    → IsValid (refresh_node r now i)
      × ((refresh_node r now i).present ≡ r.present)
      × ((refresh_node r now i).timeout_ms ≡ r.timeout_ms)
unfolding refresh_node
refresh_node-rest r now i v =
    ground (arith, length-set r.nodes i (refreshed r.timeout_ms now (node_at r i)))

Swept-suc :
    (left i now : ℕ) (r : NodeRegistry) {r' : NodeRegistry}
    → IsValid r
    → i < max_nodes
    → Swept left (suc i) now (refresh_node r now i) r'
    → Swept (suc left) i now r r'
Swept-suc left i now r v lt rest = record {
  valid = rest.valid;
  same_present = rest.same_present ∙ one.1;
  same_timeout = rest.same_timeout ∙ one.2;
  nodes_lem = λ m. ground (
    arith,
    rest.nodes_lem m,
    node_at-refresh_node r now i m v,
    ap (λ ps. get_or ps m false) one.1,
    one.2,
  );
}
  where
    one :
        IsValid (refresh_node r now i)
        × ((refresh_node r now i).present ≡ r.present)
        × ((refresh_node r now i).timeout_ms ≡ r.timeout_ms)
    one = refresh_node-rest r now i v

refresh_from-Swept :
    (left i now : ℕ) (r : NodeRegistry)
    → IsValid r
    → i + left ≤ max_nodes
    → Swept left i now r (refresh_from left r now i)
unfolding refresh_from
refresh_from-Swept zero i now r v fits = record {
  valid = v;
  same_present = refl;
  same_timeout = refl;
  nodes_lem = λ m. ground arith;
}
refresh_from-Swept (suc left) i now r v fits =
    let one = refresh_node-rest r now i v in
    Swept-suc left i now r v (omega arith)
      (refresh_from-Swept left (suc i) now (refresh_node r now i) one.0 (omega arith))

pub refresh-IsValid : {r : NodeRegistry} (now : ℕ) → IsValid r → IsValid (refresh r now)
unfolding refresh
refresh-IsValid {r} now v = (refresh_from-Swept max_nodes 0 now r v (omega arith)).valid

pub timeout-refresh :
    {r : NodeRegistry} (now : ℕ) → IsValid r → (refresh r now).timeout_ms ≡ r.timeout_ms
unfolding refresh
timeout-refresh {r} now v = (refresh_from-Swept max_nodes 0 now r v (omega arith)).same_timeout

-- On a valid registry, `refresh` recomputes the online state of every known node from the time
-- since it was last seen, changes nothing else, and makes no node known.
pub get-refresh :
    (r : NodeRegistry) (now m : ℕ)
    → IsValid r
    → get (refresh r now) m ≡ Option.map (refreshed r.timeout_ms now) (get r m)
unfolding get
get-refresh r now m v =
    ground (arith, swept.nodes_lem m, ap (λ ps. get_or ps m false) swept.same_present)
  where
    swept : Swept max_nodes 0 now r (refresh r now)
    swept = unfold refresh in refresh_from-Swept max_nodes 0 now r v (omega arith)
