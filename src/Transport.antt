-- ===== src/Transport.antt =====
-- src/nectarapi/transports.py: a request goes to the active node of the pool, and to the next one when
-- that node fails. The synchronous and the asynchronous transport run the same steps. What a node
-- answers is given by `ask`, and reading `k` of the clock (in milliseconds) by `clock`; every attempt
-- reads it four times: to choose the node, to mark it, and twice for the log.
mod Ready
mod Failover
mod Tests
use hive_nectar.Prelude.{
  ℕ, zero, suc, ◌+◌, ◌*◌, Bool, true, false, not, ◌||◌, List, length, Option, none, some, leb, ◌==◌,
  if◌then◌else◌,
}
use hive_nectar.Prelude.Int.{ℤ, pos, pos_part}
use hive_nectar.Pool.{NodePool, get_active_node, mark_node_failed, mark_node_rate_limited}

-- The `Retry-After` header: missing or blank, a number of seconds or a date (in milliseconds from
-- now), or neither.
pub data RetryAfter : Type 0 where
  blank : RetryAfter
  delay : ℤ → RetryAfter
  until : ℤ → RetryAfter
  unreadable : RetryAfter

abbrev pub default_rate_limit_cooldown : ℤ
default_rate_limit_cooldown = pos 30000

unfoldable pub retry_after_seconds : RetryAfter → ℤ
retry_after_seconds blank = default_rate_limit_cooldown
retry_after_seconds (delay z) = pos (pos_part z)
retry_after_seconds (until z) = pos (pos_part z)
retry_after_seconds unreadable = default_rate_limit_cooldown

-- What the underlying transport makes of a request.
pub data Outcome : Type 0 where
  response : ℕ → RetryAfter → Outcome
  request_error : Outcome

-- What the caller gets: a response (its status, the node), the last exception (the attempt that met
-- it), or a new exception.
pub data Reply : Type 0 where
  answered : ℕ → ℕ → Reply
  last_error : ℕ → Reply
  all_failed : Reply

-- Failures of the node itself, after which another node is tried.
unfoldable pub is_answer : Outcome → Bool
is_answer (response status retry) = not (status == 429 || leb 500 status)
is_answer request_error = false

unfoldable pub reply : Outcome → ℕ → Reply
reply (response status retry) node = answered status node
reply request_error node = all_failed

unfoldable pub mark : ℕ → ℕ → Outcome → NodePool → NodePool
mark now node (response status retry) p =
    if status == 429
    then mark_node_rate_limited now node (retry_after_seconds retry) p
    else mark_node_failed now node p
mark now node request_error p = mark_node_failed now node p

-- The two reads of the active node that logging makes.
unfoldable pub log_node_failover : ℕ → ℕ → NodePool → NodePool
log_node_failover first second p = get_active_node second (get_active_node first p)

unfoldable pub remember : ℕ → Outcome → Option ℕ → Option ℕ
remember attempt (response status retry) last = last
remember attempt request_error last = some attempt

unfoldable pub exhausted : Option ℕ → Reply
exhausted none = all_failed
exhausted (some attempt) = last_error attempt

module _ (ask : ℕ → ℕ → Outcome) (clock : ℕ → ℕ) where
  -- The pool and the chosen node after a failed attempt.
  unfoldable pub failover : ℕ → Outcome → NodePool → NodePool
  failover attempt o p =
      log_node_failover (clock (4 * attempt + 2)) (clock (4 * attempt + 3))
        (mark (clock (4 * attempt + 1)) p.active o p)

  -- The loop, with `rest` attempts left.
  unfoldable pub attempt_loop : ℕ → ℕ → Option ℕ → NodePool → NodePool × Reply
  attempt_loop zero attempt last p = (get_active_node (clock (4 * attempt)) p, exhausted last)
  attempt_loop (suc rest) attempt last p =
      let chosen = get_active_node (clock (4 * attempt)) p in
      let o = ask attempt chosen.active in
      let again =
        attempt_loop rest (suc attempt) (remember attempt o last) (failover attempt o chosen) in
      if is_answer o then (chosen, reply o chosen.active) else again

  unfoldable pub handle_request : NodePool → NodePool × Reply
  handle_request p = attempt_loop (length p.nodes) 0 none p

  -- `handle_async_request`: the same steps, on the asynchronous methods of the pool, which call the
  -- others or do as they do.
  unfoldable pub handle_async_request : NodePool → NodePool × Reply
  handle_async_request p = attempt_loop (length p.nodes) 0 none p
