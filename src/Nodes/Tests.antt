-- ===== src/Nodes/Tests.antt =====
-- Runs of src/nectarapi/node.py, and its theorems at concrete inputs.
use hive_nectar.Prelude.{◌<◌, ◌*◌, ◌≡◌, refl, arith, true, [], ◌∷◌, ok, length, bytes_eq}
use hive_nectar.Prelude.Int.{pos}
use hive_nectar.Prelude.Bytes.{codes}
use hive_nectar.Pool.{
  new_pool, leb_penalty, recalculate_best_node, expire, max_block, score, choose, indexed,
  only_healthy, get_active_node, any_limit_over, mark_node_failed,
}
use hive_nectar.Pool.Sort.{sort, insert}
use hive_nectar.Nodes.{
  Nodes, one_text, several, split_urls, prepend, url_list, set_node_urls, new_nodes, node, place,
  find_url, active_url, change_node, write_at, fail_active, increase_error_cnt, next,
}
use hive_nectar.Nodes.Counts.{has_pool}
use hive_nectar.Nodes.Budget.{fail_times, any_spent, fail_times_spent}

abbrev two : Nodes
two = new_nodes 0 (several (codes "a" ∷ codes "b" ∷ [])) (pos 1) (pos 2)

computed_two : (new_nodes 0 (one_text (codes "a;b")) (pos 1) (pos 2)).list ≡ two.list
unfolding new_nodes set_node_urls url_list split_urls prepend
computed_two = refl

failing : Nodes → Nodes
unfolding increase_error_cnt change_node node fail_active write_at place find_url active_url
    bytes_eq get_active_node any_limit_over mark_node_failed recalculate_best_node expire max_block
    score choose indexed only_healthy sort insert leb_penalty new_pool new_nodes set_node_urls
    url_list
failing s = (increase_error_cnt 5 s).0

-- After the first node has failed, the second is the current one.
failover_runs : (next 5 (failing two)).1 ≡ ok (codes "b")
unfolding failing next
failover_runs = refl

two_some : 0 < length two.list
unfolding new_nodes set_node_urls url_list
two_some = omega arith

two_few : length two.list * 1 < 3
unfolding new_nodes set_node_urls url_list
two_few = omega arith

two_pool : has_pool two.pool_manager ≡ true
unfolding new_nodes set_node_urls
two_pool = refl

fail_times_spent_example : any_spent (pos 1) (fail_times (1 ∷ 2 ∷ 3 ∷ []) two).list ≡ true
fail_times_spent_example = fail_times_spent (1 ∷ 2 ∷ 3 ∷ []) two 1 two_some two_pool two_few
