-- ===== src/Pool/Probes.antt =====
-- The health probes of src/nectarapi/pool.py, which run in threads and end in any order.
use hive_nectar.Prelude.{
  ℕ, zero, suc, ◌+◌, ◌≤◌, ◌≡◌, ◌≢◌, refl, sym, ap, ◌∙◌, true, false, inl, List, [], ◌∷◌, ◌++◌, some,
  get_elem?, modify, All, get_elem?-modify_self, get_elem?-modify_ne,
}
use hive_nectar.Pool.{
  infinite, RpcNode, NodePool, limit_over, recalculate_best_node, Probe, head_block, no_answer,
  probe_node_health, run_probes, update_pool,
}
use hive_nectar.Pool.Choice.{IsHealthyAt}
use hive_nectar.Pool.Health.{rescored, top_block, recalculate-at, rescored-healthy}
use hive_nectar.Pool.Failures.{rescored_down}

-- No probe of the list is of node `i`.
abbrev pub Spares : ℕ → List (ℕ × Probe) → Type 0
Spares i = All (λ c. c.0 ≢ i)

run_probes_spared :
    (probes : List (ℕ × Probe)) (ns : List RpcNode) (i : ℕ)
    → Spares i probes
    → get_elem? (run_probes probes ns) i ≡ get_elem? ns i
unfolding run_probes
run_probes_spared [] ns i s = refl
run_probes_spared ((j, probe) ∷ probes) ns i (d, s) =
    run_probes_spared probes _ i s ∙ get_elem?-modify_ne (probe_node_health probe) ns j i d

run_probes-at :
    (before after : List (ℕ × Probe)) (probe : Probe) (ns : List RpcNode) (i : ℕ) (n : RpcNode)
    → Spares i before
    → Spares i after
    → get_elem? ns i ≡ some n
    → get_elem? (run_probes (before ++ (i, probe) ∷ after) ns) i ≡ some (probe_node_health probe n)
unfolding run_probes
run_probes-at [] after probe ns i n b a e =
    run_probes_spared after _ i a ∙ get_elem?-modify_self (probe_node_health probe) ns i n e
run_probes-at ((j, other) ∷ before) after probe ns i n (d, b) a e =
    run_probes-at before after probe _ i n b a
      (get_elem?-modify_ne (probe_node_health other) ns j i d ∙ e)

-- The state in which the probes leave the pool.
abbrev pub probed : List (ℕ × Probe) → NodePool → NodePool
probed probes p = record p { nodes = run_probes probes p.nodes }

update_pool-at :
    (now : ℕ) (before after : List (ℕ × Probe)) (probe : Probe) (p : NodePool) (i : ℕ) (n : RpcNode)
    → Spares i before
    → Spares i after
    → get_elem? p.nodes i ≡ some n
    → let probes = before ++ (i, probe) ∷ after in
      get_elem? (update_pool now probes p).nodes i
      ≡ some (rescored now p.max_lag (top_block now (probed probes p)) (probe_node_health probe n))
unfolding update_pool
update_pool-at now before after probe p i n b a e =
    recalculate-at now (probed (before ++ (i, probe) ∷ after) p) i (probe_node_health probe n)
      (run_probes-at before after probe p.nodes i n b a e)

-- Some healthy node stands there.
abbrev pub IsUpAt : List RpcNode → ℕ → Type 0
IsUpAt ns i = (m : RpcNode) × IsHealthyAt ns i m

-- Whatever else is probed before or after it, a node that answers with a block at most `max_lag`
-- behind is healthy when the probes have ended, also when it is rate limited and its limit is not
-- over.
pub update_pool_answered :
    (now : ℕ) (before after : List (ℕ × Probe)) (latency number : ℕ) (p : NodePool) (i : ℕ)
    (n : RpcNode)
    → Spares i before
    → Spares i after
    → get_elem? p.nodes i ≡ some n
    → let probes = before ++ (i, head_block latency number) ∷ after in
      top_block now (probed probes p) ≤ number + p.max_lag
      → IsUpAt (update_pool now probes p).nodes i
unfolding probe_node_health
update_pool_answered now before after latency number p i n b a e l = (
  _,
  (
    update_pool-at now before after (head_block latency number) p i n b a e,
    rescored-healthy now p.max_lag _ (probe_node_health (head_block latency number) n) (inl healthy)
        l,
  ),
)
  where
    healthy : (probe_node_health (head_block latency number) n).healthy ≡ true
    healthy = unfold probe_node_health in refl

-- Whatever else is probed before or after it, a node whose probe fails, and that has no rate limit
-- that has run out, is not healthy when the probes have ended.
update_pool_unanswered :
    (now : ℕ) (before after : List (ℕ × Probe)) (p : NodePool) (i : ℕ) (n : RpcNode)
    → Spares i before
    → Spares i after
    → get_elem? p.nodes i ≡ some n
    → limit_over now n ≡ false
    → let q = update_pool now (before ++ (i, no_answer) ∷ after) p in
      get_elem? q.nodes i ≡ some (record n { healthy = false; penalty = infinite })
unfolding probe_node_health
update_pool_unanswered now before after p i n b a e l =
    update_pool-at now before after no_answer p i n b a e
    ∙ ap some (rescored_down now p.max_lag _ (probe_node_health no_answer n) refl l)

modify_twice :
    (f g : RpcNode → RpcNode) (ns : List RpcNode) (i j : ℕ)
    → i ≢ j
    → modify i f (modify j g ns) ≡ modify j g (modify i f ns)
modify_twice f g [] i j d = refl
modify_twice f g (n ∷ ns) zero zero d = absurd (d refl)
modify_twice f g (n ∷ ns) zero (suc j) d = refl
modify_twice f g (n ∷ ns) (suc i) zero d = refl
modify_twice f g (n ∷ ns) (suc i) (suc j) d =
    ap (λ r. n ∷ r) (modify_twice f g ns i j (λ e. d (ap suc e)))

run_probes_swap :
    (before after : List (ℕ × Probe)) (x y : ℕ × Probe) (ns : List RpcNode)
    → x.0 ≢ y.0
    → run_probes (before ++ x ∷ y ∷ after) ns ≡ run_probes (before ++ y ∷ x ∷ after) ns
unfolding run_probes
run_probes_swap [] after (i, a) (j, b) ns d =
    ap (run_probes after) (sym (modify_twice (probe_node_health a) (probe_node_health b) ns i j d))
run_probes_swap ((k, c) ∷ before) after x y ns d = run_probes_swap before after x y _ d

-- The order in which two probes of different nodes end makes no difference to the pool.
update_pool_swap :
    (now : ℕ) (before after : List (ℕ × Probe)) (x y : ℕ × Probe) (p : NodePool)
    → x.0 ≢ y.0
    → update_pool now (before ++ x ∷ y ∷ after) p ≡ update_pool now (before ++ y ∷ x ∷ after) p
unfolding update_pool
update_pool_swap now before after x y p d =
    ap (λ ns. recalculate_best_node now (record p { nodes = ns }))
      (run_probes_swap before after x y p.nodes d)
