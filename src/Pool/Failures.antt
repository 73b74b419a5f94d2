-- ===== src/Pool/Failures.antt =====
-- What src/nectarapi/pool.py makes of a node that failed or was rate limited.
use mathlib.Core.Path.{subst}
use hive_nectar.Prelude.{
  ℕ, zero, suc, ◌+◌, ◌≤◌, ◌<◌, ◌≡◌, ◌≢◌, refl, sym, ap, ◌∙◌, Bool, true, false, ◌||◌, inr, List, [],
  ◌∷◌, some, get_elem?, modify, if◌then◌else◌, arith, get_elem?-modify_self,
}
use hive_nectar.Prelude.Int.{pos}
use hive_nectar.Pool.{
  finite, infinite, RpcNode, NodePool, limit_over, expire, score, recalculate_best_node,
  any_limit_over, get_active_node, failed, mark_node_failed, limited, mark_node_rate_limited,
}
use hive_nectar.Pool.Choice.{IsHealthyAt}
use hive_nectar.Pool.Health.{
  rescored, top_block, recalculate-at, recalculate_active, rescored-healthy,
}

pub expire_kept : (now : ℕ) (n : RpcNode) → limit_over now n ≡ false → expire now n ≡ n
unfolding expire
expire_kept now n l =
    ap
      (λ b.
        if b then record n { rate_limited_until = 0; healthy = true; penalty = finite 0 } else n)
      l

expire_over :
    (now : ℕ) (n : RpcNode)
    → limit_over now n ≡ true
    → expire now n ≡ record n { rate_limited_until = 0; healthy = true; penalty = finite 0 }
unfolding expire
expire_over now n l =
    ap
      (λ b.
        if b then record n { rate_limited_until = 0; healthy = true; penalty = finite 0 } else n)
      l

if_down : (b : Bool) (x y : RpcNode) → b ≡ false → (if b then x else y) ≡ y
if_down true x y e = cc
if_down false x y e = refl

-- A node that is not healthy, without a limit that has run out, is only given the infinite penalty.
pub rescored_down :
    (now lag top : ℕ) (n : RpcNode)
    → n.healthy ≡ false
    → limit_over now n ≡ false
    → rescored now lag top n ≡ record n { penalty = infinite }
rescored_down now lag top n h l = ap (score lag top) (expire_kept now n l) ∙ down
  where
    down : score lag top n ≡ record n { penalty = infinite }
    down = unfold score in if_down n.healthy _ _ h

-- A node that failed, or was rate limited, is counted, set to unhealthy with an infinite penalty, and
-- not chosen while any node is healthy, unless its limit has run out.
down_lem :
    (now i : ℕ) (p : NodePool) (n : RpcNode)
    → get_elem? p.nodes i ≡ some n
    → n.healthy ≡ false
    → limit_over now n ≡ false
    → let q = recalculate_best_node now p in
      (get_elem? q.nodes i ≡ some (record n { penalty = infinite }))
      × ((j : ℕ) (m : RpcNode) → IsHealthyAt q.nodes j m → q.active ≢ i)
down_lem now i p n e h l = (at, other)
  where
    q : NodePool
    q = recalculate_best_node now p

    at : get_elem? q.nodes i ≡ some (record n { penalty = infinite })
    at = recalculate-at now p i n e ∙ ap some (rescored_down now p.max_lag (top_block now p) n h l)

    other : (j : ℕ) (m : RpcNode) → IsHealthyAt q.nodes j m → q.active ≢ i
    other j m g a =
        let (k, (ek, hk), _) = recalculate_active now p j m g in
        let here = at in
        let same : record n { penalty = infinite } ≡ k = cc in
        let up : n.healthy ≡ true = ap (λ x. x.healthy) same ∙ hk in cc

abbrev marked_failed : ℕ → NodePool → NodePool
marked_failed i p = record p { nodes = modify i failed p.nodes }

-- A failed node that was not under a rate limit that has run out is afterwards unhealthy, with an
-- infinite penalty and one error more.
mark_node_failed-at :
    (now i : ℕ) (p : NodePool) (n : RpcNode)
    → get_elem? p.nodes i ≡ some n
    → limit_over now n ≡ false
    → get_elem? (mark_node_failed now i p).nodes i ≡ some (failed n)
unfolding mark_node_failed
mark_node_failed-at now i p n e l =
    (down_lem now i (marked_failed i p) (failed n) (get_elem?-modify_self failed p.nodes i n e) refl
      l).0

-- A failed node that was not under a rate limit that has run out is not the active one after the
-- call if any node is healthy.
pub mark_node_failed_avoided :
    (now i j : ℕ) (p : NodePool) (n m : RpcNode)
    → get_elem? p.nodes i ≡ some n
    → limit_over now n ≡ false
    → IsHealthyAt (mark_node_failed now i p).nodes j m
    → (mark_node_failed now i p).active ≢ i
unfolding mark_node_failed
mark_node_failed_avoided now i j p n m e l =
    (down_lem now i (marked_failed i p) (failed n) (get_elem?-modify_self failed p.nodes i n e) refl
        l).1
      j m

-- A limit that is not over yet.
limited_later :
    (later until : ℕ) (n : RpcNode) → later < until → limit_over later (limited until n) ≡ false
limited_later later until n l = ground arith

limited_kept :
    (later i until : ℕ) (q : NodePool) (n : RpcNode)
    → get_elem? q.nodes i ≡ some (limited until n)
    → later < until
    → (get_elem? (recalculate_best_node later q).nodes i ≡ some (limited until n))
      × ((j : ℕ) (m : RpcNode)
          → IsHealthyAt (recalculate_best_node later q).nodes j m
          → (recalculate_best_node later q).active ≢ i)
limited_kept later i until q n e l =
    down_lem later i q (limited until n) e refl (limited_later later until n l)

-- A node that was rate limited keeps its limit and stays unhealthy through a recalculation before
-- the time is over.
pub rate_limit_kept :
    (now later i retry_after : ℕ) (p : NodePool) (n : RpcNode)
    → get_elem? p.nodes i ≡ some n
    → now ≤ later
    → later < now + retry_after
    → get_elem?
        (recalculate_best_node later (mark_node_rate_limited now i (pos retry_after) p)).nodes
        i
      ≡ some (limited (now + retry_after) n)
unfolding mark_node_rate_limited
rate_limit_kept now later i retry_after p n e h l =
    let u = limited (now + retry_after) in
    let first =
      limited_kept now i (now + retry_after) (record p { nodes = modify i u p.nodes }) n
        (get_elem?-modify_self u p.nodes i n e) (omega arith) in
    (limited_kept later i (now + retry_after) _ n first.0 l).0

-- A recalculation before the time of a rate limit is over does not choose the limited node while
-- another node is healthy.
rate_limit_avoided :
    (now later i j retry_after : ℕ) (p : NodePool) (n m : RpcNode)
    → get_elem? p.nodes i ≡ some n
    → now ≤ later
    → later < now + retry_after
    → IsHealthyAt
        (recalculate_best_node later (mark_node_rate_limited now i (pos retry_after) p)).nodes
        j
        m
    → (recalculate_best_node later (mark_node_rate_limited now i (pos retry_after) p)).active ≢ i
unfolding mark_node_rate_limited
rate_limit_avoided now later i j retry_after p n m e h l =
    let u = limited (now + retry_after) in
    let first =
      limited_kept now i (now + retry_after) (record p { nodes = modify i u p.nodes }) n
        (get_elem?-modify_self u p.nodes i n e) (omega arith) in
    (limited_kept later i (now + retry_after) _ n first.0 l).1 j m

or_true : (a b : Bool) → b ≡ true → (a || b) ≡ true
or_true true b e = refl
or_true false b e = e

any_limit_over-at :
    (now : ℕ) (ns : List RpcNode) (i : ℕ) (n : RpcNode)
    → get_elem? ns i ≡ some n
    → limit_over now n ≡ true
    → any_limit_over now ns ≡ true
unfolding any_limit_over
any_limit_over-at now [] i n e l = cc
any_limit_over-at now (m ∷ ns) zero n e l =
    let same : m ≡ n = cc in
    let over : limit_over now m ≡ true = subst (λ x. limit_over now x ≡ true) (sym same) l in
    ap (λ b. b || any_limit_over now ns) over
any_limit_over-at now (m ∷ ns) (suc i) n e l =
    or_true (limit_over now m) _ (any_limit_over-at now ns i n e l)

pub score-limit :
    (lag top : ℕ) (n : RpcNode) → (score lag top n).rate_limited_until ≡ n.rate_limited_until
unfolding score
score-limit lag top n = ground arith

rescored-limit :
    (now lag top : ℕ) (n : RpcNode)
    → limit_over now n ≡ true
    → (rescored now lag top n).rate_limited_until ≡ 0
rescored-limit now lag top n l =
    score-limit lag top (expire now n) ∙ ap (λ x. x.rate_limited_until) (expire_over now n l)

-- A healthy node without a rate limit.
abbrev pub IsFreeAt : List RpcNode → ℕ → Type 0
IsFreeAt ns i = (m : RpcNode) × IsHealthyAt ns i m × (m.rate_limited_until ≡ 0)

revived :
    (now i : ℕ) (p : NodePool) (n : RpcNode)
    → get_elem? p.nodes i ≡ some n
    → limit_over now n ≡ true
    → top_block now p ≤ n.head_block_number + p.max_lag
    → (m : RpcNode) × IsHealthyAt (recalculate_best_node now p).nodes i m
      × (m.rate_limited_until ≡ 0)
revived now i p n e o t =
    let top = top_block now p in
    (
      rescored now p.max_lag top n,
      (recalculate-at now p i n e, rescored-healthy now p.max_lag top n (inr o) t),
      rescored-limit now p.max_lag top n o,
    )

-- Once the time of a rate limit is over, the next choice of a node makes the node healthy again,
-- with no limit set, if it is at most `max_lag` blocks behind.
pub get_active_node_revives :
    (now i : ℕ) (p : NodePool) (n : RpcNode)
    → get_elem? p.nodes i ≡ some n
    → 0 < n.rate_limited_until
    → n.rate_limited_until ≤ now
    → top_block now p ≤ n.head_block_number + p.max_lag
    → IsFreeAt (get_active_node now p).nodes i
unfolding get_active_node
get_active_node_revives now i p n e u l t =
    let over : limit_over now n ≡ true = ground arith in
    let any = any_limit_over-at now p.nodes i n e over in rw (any) (revived now i p n e over t)
