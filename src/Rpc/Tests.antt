-- ===== src/Rpc/Tests.antt =====
-- Runs of src/nectarapi/graphenerpc.py and src/nectarapi/rpcutils.py, and their theorems at concrete inputs.
use hive_nectar.Prelude.{
  ℕ, ◌≡◌, refl, false, ◌==◌, Option, none, some, [], ◌∷◌, ◌++◌, ok, bytes_eq, rpc_error_do_retry,
  no_method_with_name,
}
use hive_nectar.Prelude.Int.{pos, negsuc}
use hive_nectar.Prelude.Bytes.{Text, codes}
use hive_nectar.Values.{Value, null, a_text, a_number, a_dict, Dict, no_entries, entry, lookup}
use hive_nectar.Pool.{new_pool, recalculate_best_node, score, expire, max_block}
use hive_nectar.Nodes.{
  several, new_nodes, set_node_urls, url_list, working_nodes_count, healthy_urls,
}
use hive_nectar.Nodes.Counts.{created}
use hive_nectar.Rpc.{Rpc, answered, failed, attempts, replied}
use hive_nectar.Rpc.Replies.{
  read_reply, no_result, single_result, check_for_server_error, error_in, matches, contains, starts,
  has_word, ends_word, is_word, raise_for_error,
}
use hive_nectar.Rpc.Calls.{rpcexec}
use hive_nectar.Rpc.Waiting.{rpcexec_waits}
use hive_nectar.Rpc.Patience.{IsPatient, attempts_patient}

abbrev client : Rpc
client = record {
  nodes = new_nodes 0 (several (codes "a" ∷ codes "b" ∷ [])) (negsuc 0) (pos 5);
  url = some (codes "a");
  closed = false;
  request_id = 0;
  rpc_queue = [];
  next_node_on_empty_reply = false;
}

abbrev loads : Text → Option Value
loads text = some null

client_working : (working_nodes_count client.nodes == 0) ≡ false
unfolding working_nodes_count healthy_urls new_nodes set_node_urls url_list new_pool
    recalculate_best_node score expire max_block
client_working = refl

rpcexec_waits_example :
    (rpcexec loads (λ t. t) ((1, answered (λ p. p) []) ∷ (2, answered (λ p. p) []) ∷ []) 3 client).1
    ≡ none
rpcexec_waits_example =
    rpcexec_waits loads (λ t. t) ((1, answered (λ p. p) []) ∷ (2, answered (λ p. p) []) ∷ []) 3
      client (codes "a") (created 0 (several (codes "a" ∷ codes "b" ∷ [])) (negsuc 0) (pos 5)) refl
      client_working refl (tt, (tt, tt))

client-IsPatient : IsPatient client.nodes
unfolding new_nodes set_node_urls url_list
client-IsPatient = (refl, refl, 0, refl)

attempts_patient_example :
    (attempts
      (((1, failed (λ p. p)) ∷ (2, answered (λ p. p) []) ∷ [])
        ++ (3, answered (λ p. p) (codes "{}")) ∷ [])
      client).1
    ≡ replied (codes "{}")
attempts_patient_example =
    attempts_patient ((1, failed (λ p. p)) ∷ (2, answered (λ p. p) []) ∷ []) [] 3 (λ p. p) b'{'
      (b'}' ∷ []) client (refl, client-IsPatient) (tt, (tt, tt))

-- An error that is a text is passed over.
error_lost :
    read_reply (a_dict (entry (codes "error") (a_text (codes "no")) no_entries)) ≡ ok no_result
unfolding read_reply single_result lookup bytes_eq
error_lost = refl

throttled : check_for_server_error (codes "{'error': 'code 429'}") ≡ rpc_error_do_retry
unfolding check_for_server_error error_in matches contains starts has_word ends_word is_word
throttled = refl

unknown_method : raise_for_error (codes "Could not find method x") ≡ no_method_with_name
unfolding raise_for_error contains starts
unknown_method = refl

abbrev limit : ℕ → Dict
limit n = entry (codes "limit") (a_number (pos n)) no_entries
