-- ===== src/Rpc.antt =====
-- src/nectarapi/rpcutils.py, src/nectarapi/graphenerpc.py and src/nectarapi/noderpc.py: the requests that a
-- client makes, how it tries its nodes until one replies, and what it reads off the reply. The parts of
-- one attempt happen at one time; a failure of `request_send`, its own checks included, is one that the
-- client meets.
pub mod Queries
pub mod Replies
pub mod Batches
pub mod Calls
pub mod Waiting
pub mod Patience
mod Tests
use mathlib.Core.Option
use hive_nectar.Prelude.{
  ℕ, suc, ◌+◌, ◌==◌, ltb, Bool, true, false, not, ◌&&◌, Option, none, some, List, [], ◌∷◌, ◌++◌,
  Result, ok, err, Error, if◌then◌else◌, call_retries_reached, rpc_closed, rpc_connection,
  working_node_missing,
}
use hive_nectar.Prelude.Int.{ℤ}
use hive_nectar.Prelude.Bytes.{Text}
use hive_nectar.Values.{Value, truthy}
use hive_nectar.Pool.{NodePool}
use hive_nectar.Nodes.{
  Nodes, next, working_nodes_count, increase_error_cnt, increase_error_cnt_call,
  reset_error_cnt_call, sleep_and_check_retries,
}

pub record Rpc : Type 0 where
  pub nodes : Nodes
  pub url : Option Text
  pub closed : Bool
  pub request_id : ℕ
  pub rpc_queue : List Value
  pub next_node_on_empty_reply : Bool

-- What an attempt meets: the text of a response, or an exception; and what the transport of the session
-- makes of the pool meanwhile, which it shares with the client.
pub data Meeting : Type 0 where
  answered : (NodePool → NodePool) → Text → Meeting
  failed : (NodePool → NodePool) → Meeting

-- How the attempts end: with a text that is not empty, with an exception, or not yet.
pub data Outcome : Type 0 where
  replied : Text → Outcome
  raised : Error → Outcome
  waiting : Outcome

abbrev pub with_nodes : Rpc → Nodes → Rpc
with_nodes c nodes = record c { nodes = nodes }

-- `rpcconnect`, without the session.
unfoldable pub connected : ℕ → Rpc → Nodes × Result Text → Rpc × Result (Unit {0})
connected now c (s, err e) = (with_nodes c s, err e)
connected now c (s, ok url) =
    (record c { nodes = reset_error_cnt_call now s; url = some url }, ok tt)

unfoldable pub rpcconnect : ℕ → Rpc → Rpc × Result (Unit {0})
rpcconnect now c =
    if c.closed
    then (c, err rpc_closed)
    else if working_nodes_count c.nodes == 0
    then (c, ok tt)
    else connected now c (next now c.nodes)

-- Count an error, check the bound, and go to the next node: the common part of `_handle_transport_error`,
-- `_retry_on_next_node` and the end of the call retries.
unfoldable pub checked : ℕ → Rpc → Nodes × Result ℕ → Rpc × Result (Unit {0})
checked now c (s, err e) = (with_nodes c s, err e)
checked now c (s, ok t) = rpcconnect now (with_nodes c s)

unfoldable pub counted : ℕ → Rpc → Nodes × Result (Unit {0}) → Rpc × Result (Unit {0})
counted now c (s, err e) = (with_nodes c s, err e)
counted now c (s, ok u) = checked now c (sleep_and_check_retries false false now s)

unfoldable pub fail_over : ℕ → Rpc → Rpc × Result (Unit {0})
fail_over now c = counted now c (increase_error_cnt now c.nodes)

unfoldable pub handle_transport_error : ℕ → Rpc → Rpc × Result (Unit {0})
handle_transport_error now c = if c.closed then (c, err rpc_closed) else fail_over now c

-- After an empty reply: the call is repeated, or the next node is tried.
unfoldable pub after_empty : ℕ → Rpc → Nodes × Result ℕ → Rpc × Result (Unit {0})
after_empty now c (s, ok t) = (with_nodes c s, ok tt)
after_empty now c (s, err call_retries_reached) = fail_over now (with_nodes c s)
after_empty now c (s, err e) = (with_nodes c s, err e)

-- `except Exception` around an attempt.
unfoldable pub caught : ℕ → Rpc × Result (Unit {0}) → Rpc × Result (Unit {0})
caught now (c, ok u) = (c, ok tt)
caught now (c, err e) = handle_transport_error now c

abbrev pub count_call : ℕ → Rpc → Rpc
count_call now c = with_nodes c (increase_error_cnt_call now c.nodes)

-- The pool as it is after the sending.
unfoldable pub with_pool : (NodePool → NodePool) → Rpc → Rpc
with_pool change c =
    with_nodes c (record (c.nodes) { pool_manager = Option.map change c.nodes.pool_manager })

unfoldable pub empty_reply : ℕ → Rpc → Rpc × Result (Unit {0})
empty_reply now c = caught now (after_empty now c (sleep_and_check_retries true true now c.nodes))

-- The loop, over what it meets and when.
unfoldable pub go_on : (Rpc → Rpc × Outcome) → Rpc × Result (Unit {0}) → Rpc × Outcome
go_on rest (c, err e) = (c, raised e)
go_on rest (c, ok u) = rest c

unfoldable pub attempts : List (ℕ × Meeting) → Rpc → Rpc × Outcome
attempts [] c = (c, waiting)
attempts ((now, answered change []) ∷ ms) c =
    go_on (attempts ms) (empty_reply now (with_pool change (count_call now c)))
attempts ((now, answered change (x ∷ xs)) ∷ ms) c =
    (with_pool change (count_call now c), replied (x ∷ xs))
attempts ((now, failed change) ∷ ms) c =
    go_on (attempts ms) (handle_transport_error now (with_pool change (count_call now c)))

-- What `rpcexec` does up to the reply.
unfoldable pub send_request : List (ℕ × Meeting) → Rpc → Rpc × Outcome
send_request ms c =
    if c.closed
    then (c, raised rpc_closed)
    else if working_nodes_count c.nodes == 0
    then (c, raised working_node_missing)
    else elim c.url [ none ↦ (c, raised rpc_connection) | some u ↦ attempts ms c ]
