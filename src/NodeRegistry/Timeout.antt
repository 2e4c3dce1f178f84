-- ===== src/NodeRegistry/Timeout.antt =====
-- Liveness in true time: ticks are times modulo 2^32.
use picomesh.Base.{
  ℕ, ◌+◌, ◌-◌, ◌*◌, ◌^◌, ◌≤◌, ◌<◌, ◌≡◌, ◌≢◌, ◌∙◌, ap, ap₂, List, [], ◌∷◌, Bool, true, some, arith,
}
use mathlib.Core.Option
use picomesh.Base.{u32, sub32, leb}
use picomesh.NodeRegistry.{
  NodeStatus, NodeRegistry, IsValid, max_nodes, observe, refresh, get, seen_status,
}
use picomesh.NodeRegistry.View.{
  observe-IsValid, get-observe, get-refresh, refresh-IsValid, timeout-refresh, refreshed,
}

-- The subtraction of ticks gives the true time between them, modulo 2^32.
sub32-ticks : (start elapsed : ℕ) → sub32 (u32 (start + elapsed)) (u32 start) ≡ u32 elapsed
sub32-ticks start elapsed = omega arith

timeout-observe : (r : NodeRegistry) (n s now : ℕ) → (observe r n s now).0.timeout_ms ≡ r.timeout_ms
unfolding observe
timeout-observe r n s now = ground arith

-- What may happen between: other nodes are heard, and the registry is refreshed.
pub data Call : Type 0 where
  hears : ℕ → ℕ → ℕ → Call
  refreshes : ℕ → Call

pub run : NodeRegistry → List Call → NodeRegistry
run r [] = r
run r (hears m s now ∷ cs) = run (observe r m s now).0 cs
run r (refreshes now ∷ cs) = run (refresh r now) cs

-- No call hears the node `n`.
abbrev pub Others : ℕ → List Call → Type 0
Others n [] = Unit
Others n (hears m s now ∷ cs) = (n ≢ m) × Others n cs
Others n (refreshes now ∷ cs) = Others n cs

-- All but the online state of what is known about a node.
record Known (r : NodeRegistry) (n timeout : ℕ) (st : NodeStatus) : Type 0 where
  valid : IsValid r
  same_timeout : r.timeout_ms ≡ timeout
  online : Bool
  known : get r n ≡ some (record st { online = online })

run-Known :
    (cs : List Call) {r : NodeRegistry} (n timeout : ℕ) (st : NodeStatus)
    → Others n cs
    → Known r n timeout st
    → Known (run r cs) n timeout st
unfolding run
run-Known [] n timeout st o k = k
run-Known (hears m s now ∷ cs) {r} n timeout st o k = run-Known cs n timeout st o.1 (record {
  valid = observe-IsValid m s now k.valid;
  same_timeout = timeout-observe r m s now ∙ k.same_timeout;
  online = k.online;
  known = ground (arith, get-observe r m s now n k.valid, k.known, o.0);
})
run-Known (refreshes now ∷ cs) {r} n timeout st o k = run-Known cs n timeout st o (record {
  valid = refresh-IsValid now k.valid;
  same_timeout = timeout-refresh now k.valid ∙ k.same_timeout;
  online = leb (sub32 now st.last_seen_ms) r.timeout_ms;
  known = get-refresh r now n k.valid ∙ ap (Option.map (refreshed r.timeout_ms now)) k.known;
})

module _ (r : NodeRegistry) (n s start elapsed : ℕ) (cs : List Call) (v : IsValid r)
    (in_range : n < max_nodes) (others : Others n cs) where
  heard : Known (run (observe r n s (u32 start)).0 cs) n r.timeout_ms (seen_status n s (u32 start))
  heard = run-Known cs n r.timeout_ms (seen_status n s (u32 start)) others (record {
    valid = observe-IsValid n s (u32 start) v;
    same_timeout = timeout-observe r n s (u32 start);
    online = true;
    known = ground (arith, get-observe r n s (u32 start) n v);
  })

  get-refresh-run :
      get (refresh (run (observe r n s (u32 start)).0 cs) (u32 (start + elapsed))) n
      ≡ some (record (seen_status n s (u32 start)) { online = leb (u32 elapsed) r.timeout_ms })
  get-refresh-run =
      get-refresh (run (observe r n s (u32 start)).0 cs) (u32 (start + elapsed)) n heard.valid
      ∙ ap
          (Option.map
            (refreshed (run (observe r n s (u32 start)).0 cs).timeout_ms (u32 (start + elapsed))))
          heard.known
      ∙ ap₂ (λ (e t : ℕ). some (record (seen_status n s (u32 start)) { online = leb e t }))
          (sub32-ticks start elapsed) heard.same_timeout

  -- On a valid registry, a node in range is heard, and then other nodes are heard and the
  -- registry is refreshed in any order and at any times: less than 2^32 ms after the node was
  -- heard, a refresh makes it online exactly if the time since then is within the timeout,
  -- wherever the clock wraps, and leaves its sequence and time.
  pub online_within_timeout :
      elapsed < 2 ^ 32
      → get (refresh (run (observe r n s (u32 start)).0 cs) (u32 (start + elapsed))) n
        ≡ some (record (seen_status n s (u32 start)) { online = leb elapsed r.timeout_ms })
  online_within_timeout lt =
      get-refresh-run
      ∙ ap (λ (e : ℕ). some (record (seen_status n s (u32 start)) { online = leb e r.timeout_ms }))
          (omega arith)

  -- On a valid registry, a node in range is heard, and then other nodes are heard and the
  -- registry is refreshed in any order and at any times: after some whole turns of the 32-bit
  -- clock without that node, and then no longer than the timeout, which is below 2^32 ms, a
  -- refresh makes it online.
  pub online_after_turns :
      (turns : ℕ)
      → turns * 2 ^ 32 ≤ elapsed
      → elapsed - turns * 2 ^ 32 ≤ r.timeout_ms
      → r.timeout_ms < 2 ^ 32
      → get (refresh (run (observe r n s (u32 start)).0 cs) (u32 (start + elapsed))) n
        ≡ some (seen_status n s (u32 start))
  online_after_turns turns lo hi small =
      get-refresh-run
      ∙ ap (λ on. some (record (seen_status n s (u32 start)) { online = on }))
          (ground (arith, within))
    where
      within : u32 elapsed ≤ r.timeout_ms
      within = omega arith
