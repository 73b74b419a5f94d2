-- ===== src/Transport/Ready.antt =====
-- What a pool keeps while src/nectarapi/transports.py goes from a failed node to the next.
use mathlib.Core.Path.{subst}
use mathlib.Core.Option.{some-injective}
use hive_nectar.Prelude.{
  ℕ, zero, suc, ◌+◌, ◌≤◌, ◌≡◌, ◌≢◌, refl, sym, ap, ◌∙◌, true, false, List, [], ◌∷◌, map, length,
  some, get_elem?, modify, if◌then◌else◌, arith, All, get_elem?-map, get_elem?-modify_ne,
}
use hive_nectar.Pool.{
  RpcNode, NodePool, limit_over, expire, score, max_block, any_limit_over, failed, get_active_node,
  mark_node_failed, recalculate_best_node,
}
use hive_nectar.Pool.Failures.{expire_kept, score-limit}
use hive_nectar.Pool.Choice.{IsHealthyAt}
use hive_nectar.Pool.Health.{recalculate_active, score-healthy}

-- No node is under a rate limit.
abbrev pub Unlimited : List RpcNode → Type 0
Unlimited = All (λ n. n.rate_limited_until ≡ 0)

unfoldable pub count_healthy : List RpcNode → ℕ
count_healthy [] = 0
count_healthy (n ∷ ns) = let rest = count_healthy ns in if n.healthy then suc rest else rest

limit_over_unset : (now : ℕ) (n : RpcNode) → n.rate_limited_until ≡ 0 → limit_over now n ≡ false
limit_over_unset now n e = ground arith

any_limit_over_unset : (now : ℕ) (ns : List RpcNode) → Unlimited ns → any_limit_over now ns ≡ false
unfolding any_limit_over
any_limit_over_unset now [] u = refl
any_limit_over_unset now (n ∷ ns) (e, u) =
    rw (limit_over_unset now n e) (any_limit_over_unset now ns u)

pub get_active_node_unset : (now : ℕ) (p : NodePool) → Unlimited p.nodes → get_active_node now p ≡ p
unfolding get_active_node
get_active_node_unset now p u = rw (any_limit_over_unset now p.nodes u) refl

map_expire_unset : (now : ℕ) (ns : List RpcNode) → Unlimited ns → map (expire now) ns ≡ ns
map_expire_unset now [] u = refl
map_expire_unset now (n ∷ ns) (e, u) =
    rw (expire_kept now n (limit_over_unset now n e), map_expire_unset now ns u) refl

pub count_healthy≤length : (ns : List RpcNode) → count_healthy ns ≤ length ns
unfolding count_healthy
count_healthy≤length [] = omega arith
count_healthy≤length (n ∷ ns) = let h = count_healthy≤length ns in ground arith

pub count_healthy-failed :
    (ns : List RpcNode) (i : ℕ) (n : RpcNode)
    → IsHealthyAt ns i n
    → suc (count_healthy (modify i failed ns)) ≡ count_healthy ns
unfolding count_healthy
count_healthy-failed [] i n (e, h) = cc
count_healthy-failed (m ∷ ns) zero n (e, h) =
    let up : m.healthy ≡ true = ap (λ x. x.healthy) same ∙ h in ground arith
  where
    same : m ≡ n
    same = some-injective m n e
count_healthy-failed (m ∷ ns) (suc i) n (e, h) =
    let r = count_healthy-failed ns i n (e, h) in ground arith

max_block-failed : (ns : List RpcNode) (i : ℕ) → max_block (modify i failed ns) ≤ max_block ns
unfolding max_block
max_block-failed [] i = omega arith
max_block-failed (m ∷ ns) zero = ground arith
max_block-failed (m ∷ ns) (suc i) = let r = max_block-failed ns i in ground arith

count_healthy-score :
    (lag top : ℕ) (ns : List RpcNode) → count_healthy (map (score lag top) ns) ≤ count_healthy ns
unfolding count_healthy score
count_healthy-score lag top [] = omega arith
count_healthy-score lag top (n ∷ ns) = let r = count_healthy-score lag top ns in ground arith

max_block-score :
    (lag top : ℕ) (ns : List RpcNode) → max_block (map (score lag top) ns) ≤ max_block ns
unfolding max_block score
max_block-score lag top [] = omega arith
max_block-score lag top (n ∷ ns) = let r = max_block-score lag top ns in ground arith

Unlimited-failed : (ns : List RpcNode) (i : ℕ) → Unlimited ns → Unlimited (modify i failed ns)
Unlimited-failed [] i u = u
Unlimited-failed (n ∷ ns) zero u = u
Unlimited-failed (n ∷ ns) (suc i) (e, u) = (e, Unlimited-failed ns i u)

Unlimited-score :
    (lag top : ℕ) (ns : List RpcNode) → Unlimited ns → Unlimited (map (score lag top) ns)
Unlimited-score lag top [] u = u
Unlimited-score lag top (n ∷ ns) (e, u) = (score-limit lag top n ∙ e, Unlimited-score lag top ns u)

-- Without rate limits a recalculation only scores.
recalculate_nodes_unset :
    (now : ℕ) (p : NodePool)
    → Unlimited p.nodes
    → (recalculate_best_node now p).nodes ≡ map (score p.max_lag (max_block p.nodes)) p.nodes
unfolding recalculate_best_node
recalculate_nodes_unset now p u =
    ap (λ ns. map (score p.max_lag (max_block ns)) ns) (map_expire_unset now p.nodes u)

-- What a request relies on while it goes from node to node: there is no rate limit, node `j` is
-- healthy and not too far behind, the active node is healthy, and `rest` attempts are enough for the
-- healthy nodes.
pub record Ready (j rest : ℕ) (p : NodePool) : Type 0 where
  pub unlimited : Unlimited p.nodes
  pub node : RpcNode
  pub at : IsHealthyAt p.nodes j node
  pub near : max_block p.nodes ≤ node.head_block_number + p.max_lag
  pub active_node : RpcNode
  pub active_at : IsHealthyAt p.nodes p.active active_node
  pub enough : count_healthy p.nodes ≤ rest

score-block :
    (lag top : ℕ) (n : RpcNode) → (score lag top n).head_block_number ≡ n.head_block_number
unfolding score
score-block lag top n = ground arith

-- A node other than the failed one stays healthy and near enough.
healthy_kept :
    (lag j : ℕ) (ns : List RpcNode) (active : ℕ) (n : RpcNode)
    → IsHealthyAt ns j n
    → active ≢ j
    → max_block ns ≤ n.head_block_number + lag
    → let ns' = modify active failed ns in
      let scored = map (score lag (max_block ns')) ns' in
      let n' = score lag (max_block ns') n in
      IsHealthyAt scored j n' × (max_block scored ≤ n'.head_block_number + lag)
healthy_kept lag j ns active n (e, h) d l =
    let ns' = modify active failed ns in
    let top = max_block ns' in
    let low = max_block-failed ns active in
    let lower = max_block-score lag top ns' in
    let here : get_elem? ns' j ≡ some n = get_elem?-modify_ne failed ns active j d ∙ e in
    (
      (get_elem?-map (score lag top) ns' j n here, score-healthy lag top n h (omega arith)),
      omega (arith, score-block lag top n),
    )

pub Ready-failed :
    (now j rest : ℕ) (p : NodePool)
    → Ready j (suc rest) p
    → p.active ≢ j
    → Ready j rest (mark_node_failed now p.active p)
unfolding mark_node_failed recalculate_best_node
Ready-failed now j rest p r d =
    let ns' = modify p.active failed p.nodes in
    let m : NodePool = record p { nodes = ns' } in
    let top = max_block ns' in
    let u = Unlimited-failed p.nodes p.active r.unlimited in
    let E = sym (recalculate_nodes_unset now m u) in
    let kept = healthy_kept p.max_lag j p.nodes p.active r.node r.at d r.near in
    let n' = score p.max_lag top r.node in
    let at : IsHealthyAt (recalculate_best_node now m).nodes j n' =
      subst (λ ns. IsHealthyAt ns j n') E kept.0 in
    let (k, active_at, _) = recalculate_active now m j n' at in
    let fewer = count_healthy-failed p.nodes p.active r.active_node r.active_at in
    let few = count_healthy-score p.max_lag top ns' in
    record {
      unlimited = subst Unlimited E (Unlimited-score p.max_lag top ns' u);
      node = n';
      at = at;
      near = subst (λ ns. max_block ns ≤ n'.head_block_number + p.max_lag) E kept.1;
      active_node = k;
      active_at = active_at;
      enough = subst (λ ns. count_healthy ns ≤ rest) E (omega (arith, r.enough));
    }
