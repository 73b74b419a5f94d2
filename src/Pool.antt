-- ===== src/Pool.antt =====
-- src/nectarapi/pool.py: the nodes that a client may call, their health, and which one is active.
-- `_active_node` is one of the objects in `nodes`, so it is an index here. Clock readings are
-- numbers of some fixed unit, 0 for a limit that is not set, and one call reads the clock once.
-- Latencies and penalties are floats in the source; here they count thousandths of a millisecond.
pub mod Sort
pub mod Choice
pub mod Health
pub mod Failures
pub mod Probes
mod Tests
use Prim.Native.Nat.{max}
use hive_nectar.Prelude.{
  ℕ, zero, suc, ◌+◌, ◌-◌, ◌*◌, Bool, true, false, not, ◌&&◌, ◌||◌, List, [], ◌∷◌, map, ltb, leb,
  ◌==◌, if◌then◌else◌, Option, none, some, modify,
}
use hive_nectar.Prelude.Int.{ℤ, pos_part}
use hive_nectar.Prelude.Bytes.{Text, codes}
use Sort.{sort}

-- A penalty; `infinite` is `float("inf")`.
pub data Penalty : Type 0 where
  finite : ℕ → Penalty
  infinite : Penalty

unfoldable pub leb_penalty : Penalty → Penalty → Bool
leb_penalty (finite a) (finite b) = leb a b
leb_penalty (finite a) infinite = true
leb_penalty infinite (finite b) = false
leb_penalty infinite infinite = true

-- Thousandths in a millisecond.
abbrev pub milli : ℕ
milli = 1000

pub record RpcNode : Type 0 where
  pub url : Text
  pub penalty : Penalty
  pub healthy : Bool
  pub error_cnt : ℕ
  pub error_cnt_call : ℕ
  pub rate_limited_until : ℕ
  pub head_block_number : ℕ
  pub latency : ℕ

pub record NodePool : Type 0 where
  pub nodes : List RpcNode
  pub max_lag : ℕ
  pub active : ℕ

abbrev pub new_node : Text → RpcNode
new_node url = record {
  url = url;
  penalty = finite 0;
  healthy = true;
  error_cnt = 0;
  error_cnt_call = 0;
  rate_limited_until = 0;
  head_block_number = 0;
  latency = 0;
}

-- A rate limit that is set and has run out.
abbrev pub limit_over : ℕ → RpcNode → Bool
limit_over now n = not (n.rate_limited_until == 0) && leb n.rate_limited_until now

unfoldable pub expire : ℕ → RpcNode → RpcNode
expire now n =
    if limit_over now n
    then record n { rate_limited_until = 0; healthy = true; penalty = finite 0 }
    else n

-- The highest block of the healthy nodes, 0 if there is none.
unfoldable pub max_block : List RpcNode → ℕ
max_block [] = 0
max_block (n ∷ ns) =
    let rest = max_block ns in if n.healthy then max n.head_block_number rest else rest

unfoldable pub score : ℕ → ℕ → RpcNode → RpcNode
score max_lag top n =
    let drift = top - n.head_block_number in
    if n.healthy
    then (if ltb max_lag drift
        then record n { penalty = finite (n.latency + 100000 * milli); healthy = false }
        else record n { penalty = finite (n.latency + drift * 100 * milli); healthy = true })
    else record n { penalty = infinite }

abbrev pub Candidate : Type 0
Candidate = ℕ × RpcNode

-- The nodes with their places in the pool.
unfoldable pub indexed : ℕ → List RpcNode → List Candidate
indexed i [] = []
indexed i (n ∷ ns) = (i, n) ∷ indexed (suc i) ns

unfoldable pub only_healthy : List Candidate → List Candidate
only_healthy [] = []
only_healthy ((i, n) ∷ cs) = let rest = only_healthy cs in if n.healthy then (i, n) ∷ rest else rest

abbrev pub by_penalty : Candidate → Candidate → Bool
by_penalty c d = leb_penalty c.1.penalty d.1.penalty

-- The first of a sorted list, or else `other`.
abbrev pub first : List Candidate → ℕ → ℕ
first [] other = other
first (c ∷ cs) other = c.0

-- The healthy node of least penalty; with none healthy, the node of least penalty. The pool is
-- never empty, so the last alternative does not occur.
unfoldable pub choose : List RpcNode → ℕ → ℕ
choose ns old =
    let all_sorted = sort by_penalty (indexed 0 ns) in
    let healthy_sorted = sort by_penalty (only_healthy (indexed 0 ns)) in
    first healthy_sorted (first all_sorted old)

unfoldable pub recalculate_best_node : ℕ → NodePool → NodePool
recalculate_best_node now p =
    let expired = map (expire now) p.nodes in
    let scored = map (score p.max_lag (max_block expired)) expired in
    record p { nodes = scored; active = choose scored p.active }

-- `NodePoolManager.__init__`, with its default node.
unfoldable pub new_pool : List Text → ℕ → ℕ → NodePool
new_pool urls max_lag now =
    let urls' : List Text = elim urls [
      | [] ↦ codes "https://api.hive.blog" ∷ []
      | u ∷ us ↦ u ∷ us
    ] in
    recalculate_best_node now (record { nodes = map new_node urls'; max_lag = max_lag; active = 0 })

unfoldable pub any_limit_over : ℕ → List RpcNode → Bool
any_limit_over now [] = false
any_limit_over now (n ∷ ns) = limit_over now n || any_limit_over now ns

-- The pool after the call, whose `active` is the node returned.
unfoldable pub get_active_node : ℕ → NodePool → NodePool
get_active_node now p = if any_limit_over now p.nodes then recalculate_best_node now p else p

abbrev pub failed : RpcNode → RpcNode
failed n = record n { healthy = false; error_cnt = n.error_cnt + 1; penalty = infinite }

unfoldable pub mark_node_failed : ℕ → ℕ → NodePool → NodePool
mark_node_failed now i p = recalculate_best_node now (record p { nodes = modify i failed p.nodes })

abbrev pub limited : ℕ → RpcNode → RpcNode
limited until n = record n { rate_limited_until = until; healthy = false; penalty = infinite }

-- `retry_after` may be negative.
unfoldable pub mark_node_rate_limited : ℕ → ℕ → ℤ → NodePool → NodePool
mark_node_rate_limited now i retry_after p =
    recalculate_best_node now
      (record p { nodes = modify i (limited (now + pos_part retry_after)) p.nodes })

-- What a health probe meets: an answer with a head block, an answer without a usable one, or none.
pub data Probe : Type 0 where
  head_block : ℕ → ℕ → Probe
  bad_answer : ℕ → Probe
  no_answer : Probe

unfoldable pub probe_node_health : Probe → RpcNode → RpcNode
probe_node_health (head_block latency number) n = record n {
  latency = latency;
  head_block_number = number;
  healthy = true;
  error_cnt_call = 0;
}
probe_node_health (bad_answer latency) n = record n {
  latency = latency;
  healthy = false;
  penalty = infinite;
}
probe_node_health no_answer n = record n { healthy = false; penalty = infinite }

-- The probes run in threads and end in any order; each writes to its own node.
unfoldable pub run_probes : List (ℕ × Probe) → List RpcNode → List RpcNode
run_probes [] ns = ns
run_probes ((i, probe) ∷ rest) ns = run_probes rest (modify i (probe_node_health probe) ns)

unfoldable pub update_pool : ℕ → List (ℕ × Probe) → NodePool → NodePool
update_pool now probes p =
    recalculate_best_node now (record p { nodes = run_probes probes p.nodes })
