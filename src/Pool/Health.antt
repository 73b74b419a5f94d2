-- ===== src/Pool/Health.antt =====
-- What each operation of src/nectarapi/pool.py does to the health of the nodes, and to the choice of
-- the active one.
use mathlib.Core.Path.{subst}
use hive_nectar.Prelude.{
  ℕ, ◌+◌, ◌-◌, ◌*◌, ◌≤◌, ◌≡◌, ◌↔◌, refl, sym, ap, ◌∙◌, Bool, true, false, inl, inr, ◌⊎◌, map, some,
  get_elem?, if◌then◌else◌, arith, get_elem?-map, get_elem?-map_inv,
}
use hive_nectar.Pool.{
  finite, milli, RpcNode, NodePool, limit_over, expire, max_block, score, recalculate_best_node,
  leb_penalty,
}
use hive_nectar.Pool.Choice.{IsHealthyAt, choose_least}

-- What recalculation makes of one node, when `top` is the highest block.
abbrev pub rescored : ℕ → ℕ → ℕ → RpcNode → RpcNode
rescored now max_lag top n = score max_lag top (expire now n)

-- The highest block that recalculation finds.
unfoldable pub top_block : ℕ → NodePool → ℕ
top_block now p = max_block (map (expire now) p.nodes)

pub recalculate-at :
    (now : ℕ) (p : NodePool) (i : ℕ) (n : RpcNode)
    → get_elem? p.nodes i ≡ some n
    → get_elem? (recalculate_best_node now p).nodes i
      ≡ some (rescored now p.max_lag (top_block now p) n)
unfolding recalculate_best_node top_block
recalculate-at now p i n e = get_elem?-map _ _ i _ (get_elem?-map _ _ i n e)

pub recalculate-at_inv :
    (now : ℕ) (p : NodePool) (i : ℕ) (m : RpcNode)
    → get_elem? (recalculate_best_node now p).nodes i ≡ some m
    → (n : RpcNode) × (get_elem? p.nodes i ≡ some n)
      × (m ≡ rescored now p.max_lag (top_block now p) n)
unfolding recalculate_best_node top_block
recalculate-at_inv now p i m e =
    let (x, e1, f1) = get_elem?-map_inv _ _ i m e in
    let (n, e2, f2) = get_elem?-map_inv _ p.nodes i x e1 in
    (n, e2, f1 ∙ ap (score p.max_lag (max_block (map (expire now) p.nodes))) f2)

-- The active node is healthy, and its penalty is not above that of `k`.
abbrev pub IsActiveOver : NodePool → RpcNode → Type 0
IsActiveOver q k =
    (m : RpcNode) × IsHealthyAt q.nodes q.active m × (leb_penalty m.penalty k.penalty ≡ true)

-- After any recalculation that leaves a healthy node, the active node is healthy, and its penalty
-- is not above that of any healthy node.
pub recalculate_active :
    (now : ℕ) (p : NodePool) (j : ℕ) (k : RpcNode)
    → IsHealthyAt (recalculate_best_node now p).nodes j k
    → IsActiveOver (recalculate_best_node now p) k
unfolding recalculate_best_node
recalculate_active now p j k h =
    let (m, at, least) = choose_least _ p.active j k h in (m, at, least j k h)

-- A node that counts as healthy once its rate limit has run out.
abbrev pub Revived : ℕ → RpcNode → Type 0
Revived now n = (n.healthy ≡ true) ⊎ (limit_over now n ≡ true)

if-healthy :
    (b : Bool) (m n : RpcNode)
    → m.healthy ≡ true
    → (n.healthy ≡ true) ⊎ (b ≡ true)
    → (if b then m else n).healthy ≡ true
if-healthy true m n h r = h
if-healthy false m n h (inl r) = r
if-healthy false m n h (inr r) = cc

if-healthy_inv :
    (b : Bool) (m n : RpcNode)
    → (if b then m else n).healthy ≡ true
    → (n.healthy ≡ true) ⊎ (b ≡ true)
if-healthy_inv true m n h = inr refl
if-healthy_inv false m n h = inl h

expire-healthy : (now : ℕ) (n : RpcNode) → Revived now n → (expire now n).healthy ≡ true
unfolding expire
expire-healthy now n r =
    if-healthy (limit_over now n)
      (record n { rate_limited_until = 0; healthy = true; penalty = finite 0 }) n refl r

expire-healthy_inv : (now : ℕ) (n : RpcNode) → (expire now n).healthy ≡ true → Revived now n
unfolding expire
expire-healthy_inv now n h =
    if-healthy_inv (limit_over now n)
      (record n { rate_limited_until = 0; healthy = true; penalty = finite 0 }) n h

-- Expiry touches neither the block nor the latency.
expire-block :
    (now : ℕ) (n : RpcNode)
    → ((expire now n).head_block_number ≡ n.head_block_number)
      × ((expire now n).latency ≡ n.latency)
unfolding expire
expire-block now n =
    elim (limit_over now n)
      as (λ b.
        ((if b
            then record n { rate_limited_until = 0; healthy = true; penalty = finite 0 }
            else n).head_block_number
          ≡ n.head_block_number)
        × ((if b
              then record n { rate_limited_until = 0; healthy = true; penalty = finite 0 }
              else n).latency
            ≡ n.latency)) [ true ↦ (refl, refl) | false ↦ (refl, refl) ]

pub score-healthy :
    (lag top : ℕ) (n : RpcNode)
    → n.healthy ≡ true
    → top ≤ n.head_block_number + lag
    → (score lag top n).healthy ≡ true
unfolding score
score-healthy lag top n h l = ground arith

score-healthy_inv :
    (lag top : ℕ) (n : RpcNode)
    → (score lag top n).healthy ≡ true
    → (n.healthy ≡ true)
      × (top ≤ n.head_block_number + lag)
      × ((score lag top n).penalty ≡ finite (n.latency + (top - n.head_block_number) * 100 * milli))
unfolding score
score-healthy_inv lag top n h = ground arith

pub rescored-healthy :
    (now lag top : ℕ) (n : RpcNode)
    → Revived now n
    → top ≤ n.head_block_number + lag
    → (rescored now lag top n).healthy ≡ true
rescored-healthy now lag top n r l =
    score-healthy lag top (expire now n) (expire-healthy now n r)
      (subst (λ b. top ≤ b + lag) (sym (expire-block now n).0) l)

rescored-healthy_inv :
    (now lag top : ℕ) (n : RpcNode)
    → (rescored now lag top n).healthy ≡ true
    → Revived now n
      × (top ≤ n.head_block_number + lag)
      × ((rescored now lag top n).penalty
          ≡ finite (n.latency + (top - n.head_block_number) * 100 * milli))
rescored-healthy_inv now lag top n h =
    let (a, l, e) = score-healthy_inv lag top (expire now n) h in
    let (b, t) = expire-block now n in
    (
      expire-healthy_inv now n a,
      subst (λ x. top ≤ x + lag) b l,
      e
          ∙ ap (λ x. finite (x + (top - (expire now n).head_block_number) * 100 * milli)) t
          ∙ ap (λ x. finite (n.latency + (top - x) * 100 * milli)) b,
    )

-- A node is healthy after a recalculation just if it was healthy, or under a rate limit that has
-- run out, and is at most `max_lag` blocks behind the highest healthy node.
pub recalculate_health :
    (now : ℕ) (p : NodePool) (i : ℕ) (n m : RpcNode)
    → get_elem? p.nodes i ≡ some n
    → get_elem? (recalculate_best_node now p).nodes i ≡ some m
    → (m.healthy ≡ true) ↔ (Revived now n × (top_block now p ≤ n.head_block_number + p.max_lag))
recalculate_health now p i n m e f =
    let top = top_block now p in
    let at = recalculate-at now p i n e in
    let g : m ≡ rescored now p.max_lag top n = cc in
    subst (λ x. (x.healthy ≡ true) ↔ (Revived now n × (top ≤ n.head_block_number + p.max_lag)))
      (sym g)
      (
        (λ h. let (r, l, _) = rescored-healthy_inv now p.max_lag top n h in (r, l)),
        (λ h. rescored-healthy now p.max_lag top n h.0 h.1),
      )

-- The penalty of a node that is healthy after a recalculation is its latency and a tenth of a second
-- for each block that it is behind.
pub recalculate_penalty :
    (now : ℕ) (p : NodePool) (i : ℕ) (n m : RpcNode)
    → get_elem? p.nodes i ≡ some n
    → IsHealthyAt (recalculate_best_node now p).nodes i m
    → m.penalty ≡ finite (n.latency + (top_block now p - n.head_block_number) * 100 * milli)
recalculate_penalty now p i n m e (f, h) =
    let top = top_block now p in
    let at = recalculate-at now p i n e in
    let g : m ≡ rescored now p.max_lag top n = cc in
    let up = subst (λ x. x.healthy ≡ true) g h in
    let (_, _, cost) = rescored-healthy_inv now p.max_lag top n up in ap (λ x. x.penalty) g ∙ cost
