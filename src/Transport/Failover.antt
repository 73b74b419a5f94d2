-- ===== src/Transport/Failover.antt =====
-- src/nectarapi/transports.py: a request reaches a node that answers.
use hive_nectar.Prelude.{
  ℕ, zero, suc, ◌+◌, ◌*◌, ◌≤◌, ◌≡◌, ◌≢◌, refl, ap, Bool, true, false, inl, inr, Bool-cases, length,
  Option, none, ◌==◌, arith,
}
use hive_nectar.Pool.{RpcNode, NodePool, max_block, mark_node_failed}
use hive_nectar.Pool.Choice.{IsHealthyAt}
use hive_nectar.Transport.Ready.{
  Unlimited, count_healthy≤length, count_healthy-failed, get_active_node_unset, Ready, Ready-failed,
}
use hive_nectar.Transport.{
  Outcome, response, request_error, Reply, answered, is_answer, reply, mark, log_node_failover,
  remember, failover, attempt_loop, handle_request,
}

Ready-active : (j : ℕ) (p : NodePool) → Ready j 0 p → ⊥
Ready-active j p r =
    let one = count_healthy-failed p.nodes p.active r.active_node r.active_at in
    omega (arith, r.enough)

-- The outcome is not a rate limit.
abbrev pub IsNotLimit : Outcome → Type 0
IsNotLimit (response status retry) = (status == 429) ≡ false
IsNotLimit request_error = Unit

-- The caller got a response.
abbrev pub is_response : Reply → Bool
is_response (answered status node) = true
is_response other = false

reply-is_response :
    (o : Outcome) (node : ℕ) → is_answer o ≡ true → is_response (reply o node) ≡ true
unfolding reply is_answer
reply-is_response (response status retry) node e = refl
reply-is_response request_error node e = cc

mark_failed :
    (now node : ℕ) (o : Outcome) (p : NodePool)
    → IsNotLimit o
    → mark now node o p ≡ mark_node_failed now node p
unfolding mark
mark_failed now node (response status retry) p l = rw (l) refl
mark_failed now node request_error p l = refl

module _ (ask : ℕ → ℕ → Outcome) (clock : ℕ → ℕ) where
  Ready-failover :
      (attempt j rest : ℕ) (o : Outcome) (p : NodePool)
      → Ready j (suc rest) p
      → p.active ≢ j
      → IsNotLimit o
      → Ready j rest (failover ask clock attempt o p)
  unfolding failover log_node_failover
  Ready-failover attempt j rest o p r d l =
      let now = clock (4 * attempt + 1) in
      let q = mark_node_failed now p.active p in
      let ready = Ready-failed now j rest p r d in
      let first = get_active_node_unset (clock (4 * attempt + 2)) q ready.unlimited in
      let second = get_active_node_unset (clock (4 * attempt + 3)) q ready.unlimited in
      rw (mark_failed now p.active o p l, first, second) ready

  module _ (j : ℕ) (serves : (attempt : ℕ) → is_answer (ask attempt j) ≡ true)
      (never_limits : (attempt node : ℕ) → IsNotLimit (ask attempt node)) where
    attempt_loop-answers :
        (rest attempt : ℕ) (last : Option ℕ) (p : NodePool)
        → Ready j rest p
        → is_response (attempt_loop ask clock rest attempt last p).1 ≡ true
    unfolding attempt_loop
    attempt_loop-answers zero attempt last p r = absurd (Ready-active j p r)
    attempt_loop-answers (suc rest) attempt last p r =
        let o = ask attempt p.active in
        let same = get_active_node_unset (clock (4 * attempt)) p r.unlimited in
        elim (Bool-cases (is_answer o)) [
          | inl e ↦ rw (same, e) (reply-is_response o p.active e)
          | inr e ↦
              let other : p.active ≢ j =
                λ a. cc (ap (λ i. is_answer (ask attempt i)) a, serves attempt) in
              let ready =
                Ready-failover attempt j rest o p r other (never_limits attempt p.active) in
              rw (same, e)
                (attempt_loop-answers rest (suc attempt) (remember attempt o last) _ ready)
        ]

    -- If no node is under a rate limit or limits the rate, the active node is healthy, and some
    -- healthy node that is at most `max_lag` blocks behind the other healthy nodes always answers,
    -- then a request gets a response: the attempts do not run out before.
    pub handle_request-answers :
        (p : NodePool) (n m : RpcNode)
        → Unlimited p.nodes
        → IsHealthyAt p.nodes j n
        → max_block p.nodes ≤ n.head_block_number + p.max_lag
        → IsHealthyAt p.nodes p.active m
        → is_response (handle_request ask clock p).1 ≡ true
    unfolding handle_request
    handle_request-answers p n m u at near active_at =
        attempt_loop-answers (length p.nodes) 0 none p (record {
          unlimited = u;
          node = n;
          at = at;
          near = near;
          active_node = m;
          active_at = active_at;
          enough = count_healthy≤length p.nodes;
        })
