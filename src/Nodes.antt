-- ===== src/Nodes.antt =====
-- src/nectarapi/node.py: the list of nodes that a client was given, with the counts that bound its
-- retries, over the pool of src/nectarapi/pool.py. One call reads the clock once; log messages are left
-- out, and so is the pool's monitor.
pub mod Counts
mod Budget
mod Split
mod Tests
use hive_nectar.Prelude.{
  ℕ, zero, suc, ◌+◌, ◌-◌, ◌*◌, Bool, true, false, not, ◌&&◌, ◌||◌, List, [], ◌∷◌, map, length, ltb,
  leb, ◌==◌, if◌then◌else◌, Option, none, some, get_elem?, modify, bytes_eq, Result, ok, err, ◌>>=◌,
  index_error, stop_iteration, working_node_missing, call_retries_reached, num_retries_reached,
}
use hive_nectar.Prelude.Int.{ℤ, pos, negsuc, pos_part, ltb_ℤ, leb_ℤ}
use hive_nectar.Prelude.Bytes.{Text, codes}
use hive_nectar.Pool.{
  Penalty, finite, RpcNode, NodePool, new_pool, get_active_node, mark_node_failed,
}

pub record Node : Type 0 where
  pub url : Text
  pub error_cnt : ℕ
  pub error_cnt_call : ℕ

pub record Nodes : Type 0 where
  pub list : List Node
  pub num_retries : ℤ
  pub num_retries_call : ℤ
  pub current_node_index : ℤ
  pub freeze_current_node : Bool
  pub pool_manager : Option NodePool

abbrev pub new_node : Text → Node
new_node url = record { url = url; error_cnt = 0; error_cnt_call = 0 }

-- Put a character before the first part.
unfoldable pub prepend : ℕ → List Text → List Text
prepend c [] = (c ∷ []) ∷ []
prepend c (t ∷ ts) = (c ∷ t) ∷ ts

-- `re.split(r",|;", urls)`.
unfoldable pub split_urls : Text → List Text
split_urls [] = [] ∷ []
split_urls (c ∷ cs) =
    let rest = split_urls cs in if (c == b',') || (c == b';') then [] ∷ rest else prepend c rest

-- The argument `urls`: a string, a sequence (or another `Nodes`, by its addresses), or `None`.
pub data Urls : Type 0 where
  one_text : Text → Urls
  several : List Text → Urls
  no_urls : Urls

unfoldable pub url_list : Urls → List Text
url_list (one_text t) = split_urls t
url_list (several ts) = ts
url_list no_urls = []

-- 15 is the default `max_lag` of the pool.
unfoldable pub set_node_urls : ℕ → Urls → Nodes → Nodes
set_node_urls now urls s = record s {
  list = map new_node (url_list urls);
  current_node_index = negsuc 0;
  freeze_current_node = false;
  pool_manager = some (new_pool (url_list urls) 15 now);
}

unfoldable pub new_nodes : ℕ → Urls → ℤ → ℤ → Nodes
new_nodes now urls num_retries num_retries_call = set_node_urls now urls (record {
  list = [];
  num_retries = num_retries;
  num_retries_call = num_retries_call;
  current_node_index = negsuc 0;
  freeze_current_node = false;
  pool_manager = none;
})

-- The address of the active node of the pool.
unfoldable pub active_url : NodePool → Text
active_url p = elim (get_elem? p.nodes p.active) [ none ↦ [] | some n ↦ n.url ]

-- The first place from `i` on with an address.
unfoldable pub find_url : Text → ℕ → List Node → Option ℕ
find_url u i [] = none
find_url u i (n ∷ ns) =
    let later = find_url u (suc i) ns in if bytes_eq n.url u then some i else later

-- `url`.
unfoldable pub current_url : ℕ → Nodes → Nodes × Text
current_url now s = if length s.list == 0 then (s, []) else elim s.pool_manager [
  | none ↦
      (s, elim (get_elem? s.list (pos_part s.current_node_index)) [ none ↦ [] | some n ↦ n.url ])
  | some p ↦ let q = get_active_node now p in (record s { pool_manager = some q }, active_url q)
]

-- `__next__`.
unfoldable pub next : ℕ → Nodes → Nodes × Result Text
next now s =
    if s.freeze_current_node
    then ((current_url now s).0, ok (current_url now s).1)
    else if length s.list == 0
    then (s, err stop_iteration)
    else elim s.pool_manager [
      | none ↦ (s, err working_node_missing)
      | some p ↦
          let q = get_active_node now p in
          (
            record s {
              pool_manager = some q;
              current_node_index = elim (find_url (active_url q) 0 s.list) [
                | none ↦ s.current_node_index
                | some i ↦ pos i
              ];
            },
            ok (active_url q),
          )
    ]

unfoldable pub healthy_urls : List RpcNode → List Text
healthy_urls [] = []
healthy_urls (n ∷ ns) = let rest = healthy_urls ns in if n.healthy then n.url ∷ rest else rest

unfoldable pub export_working_nodes : Nodes → List Text
export_working_nodes s = elim s.pool_manager [ none ↦ [] | some p ↦ healthy_urls p.nodes ]

unfoldable pub is_up : Option RpcNode → Bool
is_up none = false
is_up (some n) = n.healthy

unfoldable pub working_nodes_count : Nodes → ℕ
working_nodes_count s = elim s.pool_manager [
  | none ↦ length s.list
  | some p ↦
      if s.freeze_current_node
      then if is_up (get_elem? p.nodes (pos_part s.current_node_index)) then 1 else 0
      else length (healthy_urls p.nodes)
]

-- The place in the list of the current node; none is a new node without address, which is not in it.
unfoldable pub place : Option ℕ → List Node → Option ℕ
place found [] = none
place none (n ∷ ns) = some 0
place (some i) (n ∷ ns) = some i

-- `node`. Without a pool an index out of range raises.
unfoldable pub node : ℕ → Nodes → Nodes × Result (Option ℕ)
node now s = elim s.pool_manager [
  | none ↦
      let i = pos_part s.current_node_index in
      (
        s,
        elim s.list [
          | [] ↦ ok none
          | _ ∷ _ ↦ if ltb i (length s.list) then ok (some i) else err index_error
        ],
      )
  | some p ↦
      let q = get_active_node now p in
      (record s { pool_manager = some q }, ok (place (find_url (active_url q) 0 s.list) s.list))
]

abbrev pub field_at : (Node → ℕ) → List Node → Option ℕ → ℕ
field_at field ns none = 0
field_at field ns (some i) = elim (get_elem? ns i) [ none ↦ 0 | some n ↦ field n ]

-- `error_cnt` and `error_cnt_call`.
unfoldable pub read_count : (Node → ℕ) → ℕ → Nodes → Nodes × Result ℕ
read_count field now s = ((node now s).0, ((node now s).1 >>= λ i. ok (field_at field s.list i)))

unfoldable pub num_retries_call_reached : ℕ → Nodes → Nodes × Result Bool
num_retries_call_reached now s =
    let (s', cnt) = read_count (λ n. n.error_cnt_call) now s in
    (s', (cnt >>= λ c. ok (leb_ℤ s.num_retries_call (pos c))))

unfoldable pub write_at : (Node → Node) → Option ℕ → List Node → List Node
write_at f none ns = ns
write_at f (some i) ns = modify i f ns

-- `self.pool_manager.mark_node_failed(self.pool_manager.get_active_node())`, if there is a pool.
unfoldable pub fail_active : ℕ → Option NodePool → Option NodePool
fail_active now none = none
fail_active now (some p) = let q = get_active_node now p in some (mark_node_failed now q.active q)

-- Change the current node of the list, then mark the active node of the pool failed.
unfoldable pub change_node : (Node → Node) → ℕ → Nodes → Nodes × Result (Unit {0})
change_node f now s =
    let (s', i) = node now s in
    elim i [
      | err e ↦ (s', err e)
      | ok i ↦ (
        record s' { list = write_at f i s'.list; pool_manager = fail_active now s'.pool_manager },
        ok tt,
      )
    ]

-- `n.error_cnt = self.num_retries + 1`, which is not negative for the retries that are given (-1 stands
-- for no bound).
unfoldable pub disable_node : ℕ → Nodes → Nodes × Result (Unit {0})
disable_node now s =
    let exhausted : ℕ = elim s.num_retries [ pos n ↦ suc n | negsuc n ↦ 0 ] in
    change_node (λ n. record n { error_cnt = exhausted }) now s

unfoldable pub increase_error_cnt : ℕ → Nodes → Nodes × Result (Unit {0})
increase_error_cnt now s = change_node (λ n. record n { error_cnt = n.error_cnt + 1 }) now s

-- The count of the pool's node, not that of the list's.
unfoldable pub increase_error_cnt_call : ℕ → Nodes → Nodes
increase_error_cnt_call now s = elim s.pool_manager [
  | none ↦ s
  | some p ↦
      let q = get_active_node now p in
      let ns = modify q.active (λ n. record n { error_cnt_call = n.error_cnt_call + 1 }) q.nodes in
      let cnt : ℕ = elim (get_elem? ns q.active) [ none ↦ 0 | some n ↦ n.error_cnt_call ] in
      let q' : NodePool = record q { nodes = ns } in
      record s {
        pool_manager =
            some
              (if leb_ℤ s.num_retries_call (pos cnt) then mark_node_failed now q.active q' else q');
      }
]

-- A change to the active node of the pool.
unfoldable pub change_active : (RpcNode → RpcNode) → ℕ → Nodes → Nodes
change_active f now s = elim s.pool_manager [
  | none ↦ s
  | some p ↦
      let q = get_active_node now p in
      record s { pool_manager = some (record q { nodes = modify q.active f q.nodes }) }
]

unfoldable pub reset_error_cnt_call : ℕ → Nodes → Nodes
reset_error_cnt_call now s = change_active (λ n. record n { error_cnt_call = 0 }) now s

unfoldable pub reset_error_cnt : ℕ → Nodes → Nodes
reset_error_cnt now s =
    change_active (λ n. record n { healthy = true; penalty = finite 0; error_cnt = 0 }) now s

-- The time slept, in half seconds.
unfoldable pub sleeptime : ℕ → ℕ
sleeptime cnt = if ltb cnt 1 then 0 else if ltb cnt 10 then (cnt - 1) * 3 + 1 else 20

-- A count above a bound that is not negative.
unfoldable pub is_spent : ℤ → ℕ → Bool
is_spent bound cnt = leb_ℤ (pos 0) bound && ltb_ℤ bound (pos cnt)

-- The result is the time slept. Reading the node once more at the same time changes nothing.
unfoldable pub sleep_and_check_retries : Bool → Bool → ℕ → Nodes → Nodes × Result ℕ
sleep_and_check_retries sleep call_retry now s =
    let first = (node now s).0 in
    let (s', cnt) =
      (if call_retry
        then read_count (λ n. n.error_cnt_call) now first
        else read_count (λ n. n.error_cnt) now first) in
    let spent = if call_retry then is_spent s.num_retries_call else is_spent s.num_retries in
    let reached = if call_retry then call_retries_reached else num_retries_reached in
    (s', (cnt >>= λ c. if spent c then err reached else ok (if sleep then sleeptime c else 0)))
