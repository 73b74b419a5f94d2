-- ===== src/Transport/Tests.antt =====
-- A run of src/nectarapi/transports.py, and its theorem at a concrete input.
use hive_nectar.Prelude.{ℕ, zero, suc, ◌≤◌, ◌+◌, ◌≡◌, refl, arith, true, [], ◌∷◌}
use hive_nectar.Prelude.Bytes.{codes}
use hive_nectar.Pool.{
  RpcNode, NodePool, new_node, leb_penalty, recalculate_best_node, expire, max_block, score, choose,
  indexed, only_healthy, get_active_node, any_limit_over, mark_node_failed,
}
use hive_nectar.Pool.Sort.{sort, insert}
use hive_nectar.Transport.{
  blank, Outcome, response, request_error, answered, is_answer, reply, mark, log_node_failover,
  remember, failover, attempt_loop, handle_request,
}
use hive_nectar.Transport.Failover.{is_response, IsNotLimit, handle_request-answers}

abbrev node_at : ℕ → RpcNode
node_at block = record (new_node (codes "https://a")) { head_block_number = block }

abbrev three : NodePool
three = record { nodes = node_at 100 ∷ node_at 101 ∷ node_at 99 ∷ []; max_lag = 15; active = 1 }

-- Node 0 cannot be reached, node 1 has an internal error, node 2 answers.
abbrev ask : ℕ → ℕ → Outcome
ask attempt zero = request_error
ask attempt (suc zero) = response 503 blank
ask attempt (suc (suc node)) = response 200 blank

abbrev clock : ℕ → ℕ
clock k = k

request_runs : (handle_request ask clock three).1 ≡ answered 200 2
unfolding handle_request attempt_loop failover log_node_failover mark remember is_answer reply
    get_active_node any_limit_over mark_node_failed recalculate_best_node expire max_block score
    choose indexed only_healthy sort insert leb_penalty
request_runs = refl

ask_never_limits : (attempt node : ℕ) → IsNotLimit (ask attempt node)
ask_never_limits attempt zero = tt
ask_never_limits attempt (suc zero) = refl
ask_never_limits attempt (suc (suc node)) = refl

near_enough : max_block three.nodes ≤ 99 + 15
unfolding max_block
near_enough = omega arith

node_2_answers : (attempt : ℕ) → is_answer (ask attempt 2) ≡ true
unfolding is_answer
node_2_answers attempt = refl

handle_request-answers_example : is_response (handle_request ask clock three).1 ≡ true
handle_request-answers_example =
    handle_request-answers ask clock 2 node_2_answers ask_never_limits three (node_at 99)
      (node_at 101) (refl, (refl, (refl, tt))) (refl, refl) near_enough (refl, refl)
