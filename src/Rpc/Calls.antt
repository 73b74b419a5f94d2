-- ===== src/Rpc/Calls.antt =====
-- `rpcexec` of src/nectarapi/graphenerpc.py and of src/nectarapi/noderpc.py, and the methods that stand for
-- calls. The reading of JSON and the text that Python gives for the dictionary around a reply that is no
-- JSON are parameters.
use hive_nectar.Prelude.{
  ℕ, suc, ltb, Bool, false, not, ◌&&◌, Option, none, some, List, [], ◌∷◌, ◌++◌, Result, ok, err,
  if◌then◌else◌, rpc_closed, rpc_connection,
}
use hive_nectar.Prelude.Int.{ℤ}
use hive_nectar.Prelude.Bytes.{Text}
use hive_nectar.Values.{Value, null, a_list, truthy}
use hive_nectar.Nodes.{Nodes, working_nodes_count, reset_error_cnt_call}
use hive_nectar.Rpc.{
  Rpc, Meeting, Outcome, replied, raised, waiting, with_nodes, fail_over, send_request,
}
use hive_nectar.Rpc.Queries.{get_query}
use hive_nectar.Rpc.Replies.{
  Reading, result_of, no_result, read_reply, check_for_server_error, list_of,
}

-- A call that ends returns or raises.
abbrev pub Call : Type 0
Call = Rpc × Option (Result Value)

module _ (loads : Text → Option Value) (str : Text → Text) where
  unfoldable pub read_json : Text → Option Value → Result Reading
  read_json reply none = err (check_for_server_error (str reply))
  read_json reply (some ret) = read_reply ret

  unfoldable pub returned : ℕ → Rpc → Result Reading → Call
  returned now c (ok (result_of v)) = (with_nodes c (reset_error_cnt_call now c.nodes), some (ok v))
  returned now c (ok no_result) = (c, some (ok null))
  returned now c (err e) = (c, some (err e))

  unfoldable pub finished : ℕ → Rpc × Outcome → Call
  finished now (c, replied reply) = returned now c (read_json reply (loads reply))
  finished now (c, raised e) = (c, some (err e))
  finished now (c, waiting) = (c, none)

  -- `GrapheneRPC.rpcexec`, with what its attempts meet.
  unfoldable pub rpcexec : List (ℕ × Meeting) → ℕ → Rpc → Call
  rpcexec ms now c = finished now (send_request ms c)

  -- What follows an empty reply where the next node is to be tried.
  unfoldable pub retried : List (ℕ × Meeting) → ℕ → Rpc × Result (Unit {0}) → Call
  retried ms now (c, err e) = (c, some (err e))
  retried ms now (c, ok u) = rpcexec ms now c

  abbrev pub keep_node : Rpc → Rpc
  keep_node c = record c { next_node_on_empty_reply = false }

  unfoldable pub after_reply : List (ℕ × Meeting) → ℕ → Call → Call
  after_reply ms now (c, some (ok v)) =
      if c.next_node_on_empty_reply && (not (truthy v) && ltb 1 (working_nodes_count c.nodes))
      then retried ms now (fail_over now (keep_node c))
      else (keep_node c, some (ok v))
  after_reply ms now (c, some (err e)) = (c, some (err e))
  after_reply ms now (c, none) = (c, none)

  -- `NodeRPC.rpcexec`, with what the attempts at the first and at the next node meet.
  unfoldable pub node_rpcexec : List (ℕ × Meeting) → List (ℕ × Meeting) → ℕ → Rpc → Call
  node_rpcexec first second now c = if c.closed then (c, some (err rpc_closed)) else elim c.url [
    | none ↦ (c, some (err rpc_connection))
    | some u ↦ after_reply second now (rpcexec first now c)
  ]

  abbrev pub with_call_retries : ℤ → Rpc → Rpc
  with_call_retries n c = with_nodes c (record c.nodes { num_retries_call = n })

  -- The number of call retries is put back when the call returns, but not when it raises.
  unfoldable pub put_back : ℤ → Call → Call
  put_back stored (c, some (ok v)) = (with_call_retries stored c, some (ok v))
  put_back stored (c, some (err e)) = (c, some (err e))
  put_back stored (c, none) = (c, none)

  -- What is sent: the query, behind those that wait in the queue.
  unfoldable pub payload : Value → List Value → Value
  payload q [] = q
  payload q (first ∷ rest) = a_list (list_of ((first ∷ rest) ++ q ∷ []))

  abbrev pub queued : Value → Rpc → Rpc
  queued q c = record c { rpc_queue = c.rpc_queue ++ q ∷ [] }

  -- A method of the client, with the API that its call goes to and the options of the call. What is met
  -- depends on what is sent.
  unfoldable pub call_method :
      (Value → List (ℕ × Meeting))
      → (Value → List (ℕ × Meeting))
      → ℕ
      → Text
      → Text
      → Option ℤ
      → Bool
      → Value
      → Rpc
      → Call
  call_method first second now api_name name num_retries_call add_to_queue args c =
      let request_id = suc c.request_id in
      let stored = Nodes.num_retries_call c.nodes in
      let retries : ℤ = elim num_retries_call [ none ↦ stored | some n ↦ n ] in
      let q = get_query api_name name request_id args in
      let c' : Rpc = record (with_call_retries retries c) { request_id = request_id } in
      if add_to_queue
      then (with_call_retries stored (queued q c'), some (ok null))
      else put_back stored (
          node_rpcexec (first (payload q c.rpc_queue)) (second (payload q c.rpc_queue)) now
            (record c' { rpc_queue = [] }))
