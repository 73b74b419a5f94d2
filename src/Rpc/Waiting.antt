-- ===== src/Rpc/Waiting.antt =====
-- The loop of `rpcexec` of src/nectarapi/graphenerpc.py when a node gives empty replies.
use hive_nectar.Prelude.{
  ℕ, ◌≡◌, refl, ◌==◌, true, false, Option, none, some, List, [], ◌∷◌, Result, ok, err, All,
}
use hive_nectar.Prelude.Bytes.{Text}
use hive_nectar.Values.{Value}
use hive_nectar.Nodes.{Nodes, working_nodes_count, sleep_and_check_retries}
use hive_nectar.Nodes.Counts.{Reached, called, checked, shared, call_retries_unbounded}
use hive_nectar.Rpc.{
  Rpc, Meeting, answered, failed, with_pool, Outcome, waiting, replied, raised, with_nodes,
  count_call, after_empty, caught, empty_reply, go_on, attempts, send_request,
}
use hive_nectar.Rpc.Calls.{finished, rpcexec}

after_empty_ok :
    (now : ℕ) (c : Rpc) (p : Nodes × Result ℕ) {t : ℕ}
    → p.1 ≡ ok t
    → after_empty now c p ≡ (with_nodes c p.0, ok tt)
unfolding after_empty
after_empty_ok now c (s, ok t) h = refl
after_empty_ok now c (s, err e) h = cc

-- An attempt that gets an empty text.
abbrev pub IsEmpty : ℕ × Meeting → Type 0
IsEmpty (now, answered change []) = Unit
IsEmpty (now, answered change (x ∷ xs)) = ⊥
IsEmpty (now, failed change) = ⊥

attempts_wait :
    (ms : List (ℕ × Meeting)) (c : Rpc)
    → Reached c.nodes
    → All IsEmpty ms
    → (attempts ms c).1 ≡ waiting
unfolding attempts empty_reply caught go_on with_pool
attempts_wait [] c r a = refl
attempts_wait ((now, answered change []) ∷ ms) c r (e, a) =
    let c1 = with_pool change (count_call now c) in
    let counted = shared change (called now r) in
    let quiet = call_retries_unbounded true now c1.nodes counted in
    let on = after_empty_ok now c1 (sleep_and_check_retries true true now c1.nodes) quiet in
    rw on (attempts_wait ms _ (checked true true now counted) a)
attempts_wait ((now, answered change (x ∷ xs)) ∷ ms) c r (e, a) = absurd e
attempts_wait ((now, failed change) ∷ ms) c r (e, a) = absurd e

module _ (loads : Text → Option Value) (str : Text → Text) where
  finished_waiting :
      (now : ℕ) (x : Rpc × Outcome) → x.1 ≡ waiting → (finished loads str now x).1 ≡ none
  unfolding finished
  finished_waiting now (c, waiting) h = refl
  finished_waiting now (c, replied t) h = cc
  finished_waiting now (c, raised e) h = cc

  -- Whatever the client was given for its retries, a call of an open client that is connected and
  -- has a working node has neither returned nor raised after any number of empty replies.
  pub rpcexec_waits :
      (ms : List (ℕ × Meeting)) (now : ℕ) (c : Rpc) (url : Text)
      → Reached c.nodes
      → c.closed ≡ false
      → (working_nodes_count c.nodes == 0) ≡ false
      → c.url ≡ some url
      → All IsEmpty ms
      → (rpcexec loads str ms now c).1 ≡ none
  unfolding rpcexec send_request
  rpcexec_waits ms now c url r o w u a =
      finished_waiting now (send_request ms c) (rw (o, w, u) (attempts_wait ms c r a))
