-- ===== src/Apps/Polling/Laws.antt =====
-- What the polling controllers record.
use picomesh.Base.{ℕ, ◌<◌, ◌≡◌, ◌≢◌, refl, ◌∙◌, ap, List, ◌++◌, true, false, some, arith, replicate}
use mathlib.Core.Option
use picomesh.Base.{ltb, sub32}
use picomesh.Frame.{Frame, IsFrame, is_ok}
use picomesh.Frame.Wire.{wire}
use picomesh.NodeRegistry
use picomesh.NodeRegistry.{NodeRegistry, NodeStatus, max_nodes, seen_status, refresh, get}
use picomesh.NodeRegistry.View.{observe-IsValid, get-observe, get-refresh, refreshed}
use picomesh.Arduino.TwoWire.{TwoWire, IsLawful}
use picomesh.Arduino.Controller.Laws.{quantity, receive-wire}
use picomesh.Apps.Polling.{Controller, poll_node, multi_node_loop}

module _ (W : TwoWire) (laws : IsLawful W) where
  -- What the node at an address answers when it is asked now.
  abbrev pub answer : W.State → ℕ → List ℕ
  answer bus address = laws.unread (W.request_from bus address (quantity 40)).0

  poll_node-registry :
      {f : Frame} (bus : W.State) (address : ℕ) (r : NodeRegistry) (now : ℕ) (padding : List ℕ)
      → IsFrame f
      → answer bus address ≡ wire f ++ padding
      → ((poll_node W bus address r now).1 ≡ (NodeRegistry.observe r f.node_id f.sequence now).0)
        × ((poll_node W bus address r now).2 ≡ true)
  unfolding poll_node is_ok
  poll_node-registry {f} bus address r now padding fr answered =
      let got =
        (receive-wire W laws (record { wire = bus; address = address }) (replicate 40 0) padding 40
          fr (omega arith) answered).0 in
      rw got (refl, refl)

  -- A node that was seen just now is online after a refresh.
  get-refresh-seen :
      (r : NodeRegistry) (n s now : ℕ)
      → NodeRegistry.IsValid r
      → get r n ≡ some (seen_status n s now)
      → get (refresh r now) n ≡ some (seen_status n s now)
  get-refresh-seen r n s now v e =
      get-refresh r now n v
      ∙ ap (Option.map (refreshed r.timeout_ms now)) e
      ∙ ap some (ground arith)

  -- If a poll is due, the registry is valid, and two nodes with different ids in range answer at
  -- their addresses with frames whose fields fit their C++ types, then after the loop `get`
  -- returns both as just seen, with their sequences and online.
  pub multi_node_loop-get :
      {f g : Frame} (c : Controller W) (now : ℕ) (pf pg : List ℕ)
      → NodeRegistry.IsValid c.registry
      → IsFrame f
      → IsFrame g
      → f.node_id < max_nodes
      → g.node_id < max_nodes
      → f.node_id ≢ g.node_id
      → ltb (sub32 now c.last_poll_ms) 500 ≡ false
      → answer c.bus 0x42 ≡ wire f ++ pf
      → answer (poll_node W c.bus 0x42 c.registry now).0 0x43 ≡ wire g ++ pg
      → (get (multi_node_loop W c now).registry f.node_id
          ≡ some (seen_status f.node_id f.sequence now))
        × (get (multi_node_loop W c now).registry g.node_id
            ≡ some (seen_status g.node_id g.sequence now))
  unfolding multi_node_loop
  multi_node_loop-get {f} {g} c now pf pg v ff fg inf ing apart due first second =
      rw (due, both)
        (
          get-refresh-seen r₂ f.node_id f.sequence now v₂ at_f,
          get-refresh-seen r₂ g.node_id g.sequence now v₂ at_g,
        )
    where
      r₁ : NodeRegistry
      r₁ = (NodeRegistry.observe c.registry f.node_id f.sequence now).0

      r₂ : NodeRegistry
      r₂ = (NodeRegistry.observe r₁ g.node_id g.sequence now).0

      v₁ : NodeRegistry.IsValid r₁
      v₁ = observe-IsValid f.node_id f.sequence now v

      v₂ : NodeRegistry.IsValid r₂
      v₂ = observe-IsValid g.node_id g.sequence now v₁

      one : (poll_node W c.bus 0x42 c.registry now).1 ≡ r₁
      one = (poll_node-registry c.bus 0x42 c.registry now pf ff first).0

      both :
          (poll_node W
            (poll_node W c.bus 0x42 c.registry now).0
            0x43
            (poll_node W c.bus 0x42 c.registry now).1
            now).1
          ≡ r₂
      both =
          (poll_node-registry (poll_node W c.bus 0x42 c.registry now).0 0x43
            (poll_node W c.bus 0x42 c.registry now).1 now pg fg second).0
          ∙ ap (λ r. (NodeRegistry.observe r g.node_id g.sequence now).0) one

      at_f : get r₂ f.node_id ≡ some (seen_status f.node_id f.sequence now)
      at_f = ground (
        arith,
        (get-observe r₁ g.node_id g.sequence now f.node_id v₁).1,
        (get-observe c.registry f.node_id f.sequence now f.node_id v).1,
        apart,
      )

      at_g : get r₂ g.node_id ≡ some (seen_status g.node_id g.sequence now)
      at_g = ground (arith, (get-observe r₁ g.node_id g.sequence now g.node_id v₁).1)
