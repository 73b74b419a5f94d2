-- ===== src/Pool/Tests.antt =====
-- Runs of src/nectarapi/pool.py, and its theorems at concrete inputs.
use hive_nectar.Prelude.{
  ℕ, ◌+◌, ◌-◌, ◌*◌, ◌≤◌, ◌≡◌, ◌≢◌, ◌↔◌, refl, arith, true, [], ◌∷◌, ◌++◌, some, get_elem?,
}
use hive_nectar.Prelude.Int.{pos}
use hive_nectar.Prelude.Bytes.{codes}
use hive_nectar.Pool.{
  finite, milli, RpcNode, NodePool, new_node, leb_penalty, recalculate_best_node, get_active_node,
  mark_node_failed, limited, mark_node_rate_limited, head_block, no_answer, probe_node_health,
  run_probes, update_pool, choose, expire, max_block, score, indexed, only_healthy,
}
use hive_nectar.Pool.Sort.{sort, insert}
use hive_nectar.Pool.Choice.{IsHealthyAt}
use hive_nectar.Pool.Health.{
  Revived, top_block, recalculate_active, recalculate_health, recalculate_penalty, IsActiveOver,
}
use hive_nectar.Pool.Failures.{
  mark_node_failed_avoided, rate_limit_kept, get_active_node_revives, IsFreeAt,
}
use hive_nectar.Pool.Probes.{IsUpAt, probed, update_pool_answered}

-- A node at a block, with a latency.
abbrev node_at : ℕ → ℕ → RpcNode
node_at block latency = record (new_node (codes "https://a")) {
  head_block_number = block;
  latency = latency;
}

-- Node 1 is the fastest, and node 2 is far behind.
abbrev three : NodePool
three = record {
  nodes = node_at 100 9 ∷ node_at 101 5 ∷ node_at 50 1 ∷ [];
  max_lag = 15;
  active = 0;
}

recalculated : ℕ → NodePool → NodePool
unfolding recalculate_best_node expire max_block score choose indexed only_healthy sort insert
    leb_penalty
recalculated = recalculate_best_node

best_runs : (recalculate_best_node 7 three).active ≡ 1
unfolding recalculated
best_runs = refl

failed_runs : (mark_node_failed 7 1 three).active ≡ 0
unfolding recalculated mark_node_failed
failed_runs = refl

three_top : top_block 7 three ≡ 101
unfolding top_block expire max_block
three_top = refl

abbrev fastest : RpcNode
fastest = record (node_at 101 5) { penalty = finite 5 }

fastest_at : IsHealthyAt (recalculate_best_node 7 three).nodes 1 fastest
unfolding recalculated
fastest_at = (refl, refl)

recalculate_active_example : IsActiveOver (recalculate_best_node 7 three) fastest
recalculate_active_example = recalculate_active 7 three 1 fastest fastest_at

recalculate_health_example :
    (true ≡ true) ↔ (Revived 7 (node_at 101 5) × (top_block 7 three ≤ 101 + 15))
recalculate_health_example = recalculate_health 7 three 1 (node_at 101 5) fastest refl fastest_at.0

recalculate_penalty_example : finite 5 ≡ finite (5 + (top_block 7 three - 101) * 100 * milli)
recalculate_penalty_example = recalculate_penalty 7 three 1 (node_at 101 5) fastest refl fastest_at

after_failure :
    IsHealthyAt (mark_node_failed 7 1 three).nodes 0 (record (node_at 100 9) { penalty = finite 9 })
unfolding recalculated mark_node_failed
after_failure = (refl, refl)

mark_node_failed_avoided_example : (mark_node_failed 7 1 three).active ≢ 1
mark_node_failed_avoided_example =
    mark_node_failed_avoided 7 1 0 three (node_at 101 5)
      (record (node_at 100 9) { penalty = finite 9 }) refl refl after_failure

rate_limit_kept_example :
    get_elem? (recalculate_best_node 12 (mark_node_rate_limited 7 1 (pos 10) three)).nodes 1
    ≡ some (limited 17 (node_at 101 5))
rate_limit_kept_example =
    rate_limit_kept 7 12 1 10 three (node_at 101 5) refl (omega arith) (omega arith)

after_limit :
    IsHealthyAt
      (recalculate_best_node 12 (mark_node_rate_limited 7 1 (pos 10) three)).nodes
      0
      (record (node_at 100 9) { penalty = finite 9 })
unfolding recalculated mark_node_rate_limited
after_limit = (refl, refl)

abbrev limited_pool : NodePool
limited_pool = record {
  nodes = node_at 100 9 ∷ limited 17 (node_at 101 5) ∷ [];
  max_lag = 15;
  active = 0;
}

limited_top : top_block 17 limited_pool ≤ 101 + 15
unfolding top_block expire max_block
limited_top = omega arith

get_active_node_revives_example : IsFreeAt (get_active_node 17 limited_pool).nodes 1
get_active_node_revives_example =
    get_active_node_revives 17 1 limited_pool (limited 17 (node_at 101 5)) refl (omega arith)
      (omega arith) limited_top

probed_top :
    top_block 7
      (probed ((0, head_block 3 200) ∷ [] ++ (1, head_block 4 199) ∷ (2, no_answer) ∷ []) three)
    ≤ 199 + 15
unfolding top_block expire max_block run_probes probe_node_health
probed_top = omega arith

update_pool_answered_example :
    IsUpAt
      (update_pool 7
        ((0, head_block 3 200) ∷ [] ++ (1, head_block 4 199) ∷ (2, no_answer) ∷ [])
        three).nodes
      1
update_pool_answered_example =
    update_pool_answered 7 ((0, head_block 3 200) ∷ []) ((2, no_answer) ∷ []) 4 199 three 1
      (node_at 101 5) ((λ e. omega (arith, e)), tt) ((λ e. omega (arith, e)), tt) refl probed_top
