-- ===== src/Rpc/Patience.antt =====
-- The loop of `rpcexec` of src/nectarapi/graphenerpc.py when the retries have no bound.
use hive_nectar.Prelude.{
  ℕ, zero, suc, ◌≡◌, ◌⊎◌, refl, ◌∙◌, ◌==◌, Bool, true, false, inl, inr, Bool-cases, Option,
  Option-cases, none, some, List, [], ◌∷◌, ◌++◌, length, Result, ok, err, All, if◌then◌else◌,
  call_retries_reached, arith,
}
use hive_nectar.Prelude.Int.{negsuc}
use hive_nectar.Prelude.Bytes.{Text}
use hive_nectar.Nodes.{
  Node, Nodes, working_nodes_count, next, current_url, node, read_count, write_at, fail_active,
  change_node, increase_error_cnt, increase_error_cnt_call, change_active, reset_error_cnt_call,
  is_spent, sleep_and_check_retries,
}
use hive_nectar.Nodes.Counts.{has_pool, has_pool-map}
use hive_nectar.Pool.{NodePool}
use hive_nectar.Rpc.{
  Rpc, Meeting, answered, failed, Outcome, replied, with_nodes, connected, rpcconnect, checked,
  counted, fail_over, handle_transport_error, count_call, with_pool, after_empty, caught,
  empty_reply, go_on, attempts,
}

-- There are nodes and a pool, and the errors have no bound.
abbrev pub IsPatient : Nodes → Type 0
IsPatient s =
    (has_pool s.pool_manager ≡ true)
    × ((length s.list == 0) ≡ false)
    × (n : ℕ) × (s.num_retries ≡ negsuc n)

-- A call of the nodes that is sure to be made, and leaves them as patient.
abbrev Serves : {A : Type 0} → Nodes × Result A → Type 0
Serves {A} p = IsPatient p.0 × (a : A) × (p.1 ≡ ok a)

increase_error_cnt_call-IsPatient :
    (now : ℕ) (s : Nodes) → IsPatient s → IsPatient (increase_error_cnt_call now s)
unfolding increase_error_cnt_call
increase_error_cnt_call-IsPatient now s (a, b, n, c) = elim (Option-cases s.pool_manager) [
  | inl e ↦ cc
  | inr (p, e) ↦ rw e (refl, b, n, c)
]

reset_error_cnt_call-IsPatient :
    (now : ℕ) (s : Nodes) → IsPatient s → IsPatient (reset_error_cnt_call now s)
unfolding reset_error_cnt_call change_active
reset_error_cnt_call-IsPatient now s (a, b, n, c) = elim (Option-cases s.pool_manager) [
  | inl e ↦ cc
  | inr (p, e) ↦ rw e (refl, b, n, c)
]

node-Serves : (now : ℕ) (s : Nodes) → IsPatient s → Serves (node now s)
unfolding node
node-Serves now s (a, b, n, c) = elim (Option-cases s.pool_manager) [
  | inl e ↦ cc
  | inr (p, e) ↦ rw e ((refl, b, n, c), _, refl)
]

length-write_at :
    (f : Node → Node) (i : Option ℕ) (ns : List Node)
    → (length ns == 0) ≡ false
    → (length (write_at f i ns) == 0) ≡ false
unfolding write_at
length-write_at f none ns h = h
length-write_at f (some i) [] h = cc
length-write_at f (some zero) (n ∷ ns) h = ground arith
length-write_at f (some (suc i)) (n ∷ ns) h = ground arith

increase_error_cnt-Serves : (now : ℕ) (s : Nodes) → IsPatient s → Serves (increase_error_cnt now s)
unfolding increase_error_cnt change_node node fail_active
increase_error_cnt-Serves now s (a, b, n, c) = elim (Option-cases s.pool_manager) [
  | inl e ↦ cc
  | inr (p, e) ↦ rw e ((refl, length-write_at _ _ s.list b, n, c), tt, refl)
]

next-Serves : (now : ℕ) (s : Nodes) → IsPatient s → Serves (next now s)
unfolding next current_url
next-Serves now s (a, b, n, c) = elim (Option-cases s.pool_manager) [
  | inl e ↦ cc
  | inr (p, e) ↦ elim (Bool-cases s.freeze_current_node) [
    | inl f ↦ rw (f, b, e) ((refl, b, n, c), _, refl)
    | inr f ↦ rw (f, b, e) ((refl, b, n, c), _, refl)
  ]
]

unbounded : (n cnt : ℕ) → is_spent (negsuc n) cnt ≡ false
unfolding is_spent
unbounded n cnt = ground arith

sleep-Serves :
    (now : ℕ) (s : Nodes) → IsPatient s → Serves (sleep_and_check_retries false false now s)
unfolding sleep_and_check_retries read_count
sleep-Serves now s h =
    let (h1, i, e) = node-Serves now s h in
    let (h2, j, e') = node-Serves now (node now s).0 h1 in
    let (a, b, n, c) = h in (h2, 0, rw (e', c, unbounded) refl)

either_way :
    (b : Bool) (n : ℕ)
    → ((t : ℕ) × ((if b then err call_retries_reached else ok n) ≡ ok t))
      ⊎ ((if b then err call_retries_reached else ok n) ≡ err call_retries_reached)
either_way true n = inr refl
either_way false n = inl (n, refl)

-- The check of the calls lets the client go on, or tells it to take the next node.
sleep_call_checked :
    (now : ℕ) (s : Nodes)
    → IsPatient s
    → IsPatient (sleep_and_check_retries true true now s).0
      × (((t : ℕ) × ((sleep_and_check_retries true true now s).1 ≡ ok t))
          ⊎ ((sleep_and_check_retries true true now s).1 ≡ err call_retries_reached))
unfolding sleep_and_check_retries read_count
sleep_call_checked now s h =
    let (h1, i, e) = node-Serves now s h in
    let (h2, j, e') = node-Serves now (node now s).0 h1 in (h2, rw e' (either_way _ _))

-- An open client that is sure to go on.
abbrev pub IsOpen : Rpc → Type 0
IsOpen c = (c.closed ≡ false) × IsPatient c.nodes

abbrev Goes : Rpc × Result (Unit {0}) → Type 0
Goes p = IsOpen p.0 × (p.1 ≡ ok tt)

Goes-if : (b : Bool) (x y : Rpc × Result (Unit {0})) → Goes x → Goes y → Goes (if b then x else y)
Goes-if true x y h k = h
Goes-if false x y h k = k

Goes-else :
    (b : Bool) (x y : Rpc × Result (Unit {0})) → b ≡ false → Goes y → Goes (if b then x else y)
Goes-else true x y e k = cc
Goes-else false x y e k = k

connected-Goes :
    (now : ℕ) (c : Rpc) (p : Nodes × Result Text)
    → c.closed ≡ false
    → Serves p
    → Goes (connected now c p)
unfolding connected
connected-Goes now c (s, ok url) o (h, _, _) = ((o, reset_error_cnt_call-IsPatient now s h), refl)
connected-Goes now c (s, err e) o (h, a, b) = cc

rpcconnect-Goes : (now : ℕ) (c : Rpc) → IsOpen c → Goes (rpcconnect now c)
unfolding rpcconnect
rpcconnect-Goes now c (o, h) = Goes-else c.closed _ _ o (
    Goes-if (working_nodes_count c.nodes == 0) _ _ ((o, h), refl)
      (connected-Goes now c (next now c.nodes) o (next-Serves now c.nodes h)))

checked-Goes :
    (now : ℕ) (c : Rpc) (p : Nodes × Result ℕ)
    → c.closed ≡ false
    → Serves p
    → Goes (checked now c p)
unfolding checked
checked-Goes now c (s, ok t) o (h, _, _) = rpcconnect-Goes now (with_nodes c s) (o, h)
checked-Goes now c (s, err e) o (h, a, b) = cc

counted-Goes :
    (now : ℕ) (c : Rpc) (p : Nodes × Result (Unit {0}))
    → c.closed ≡ false
    → Serves p
    → Goes (counted now c p)
unfolding counted
counted-Goes now c (s, ok u) o (h, _, _) = checked-Goes now c _ o (sleep-Serves now s h)
counted-Goes now c (s, err e) o (h, a, b) = cc

fail_over-Goes : (now : ℕ) (c : Rpc) → IsOpen c → Goes (fail_over now c)
unfolding fail_over
fail_over-Goes now c (o, h) = counted-Goes now c _ o (increase_error_cnt-Serves now c.nodes h)

handle_transport_error-Goes : (now : ℕ) (c : Rpc) → IsOpen c → Goes (handle_transport_error now c)
unfolding handle_transport_error
handle_transport_error-Goes now c (o, h) = Goes-else c.closed _ _ o (fail_over-Goes now c (o, h))

after_empty-Goes :
    (now : ℕ) (c : Rpc) (p : Nodes × Result ℕ)
    → c.closed ≡ false
    → IsPatient p.0
    → ((t : ℕ) × (p.1 ≡ ok t)) ⊎ (p.1 ≡ err call_retries_reached)
    → Goes (after_empty now c p)
unfolding after_empty
after_empty-Goes now c (s, ok t) o h k = ((o, h), refl)
after_empty-Goes now c (s, err e) o h (inl (t, k)) = cc
after_empty-Goes now c (s, err e) o h (inr k) =
    let same : e ≡ call_retries_reached = cc in rw same (fail_over-Goes now (with_nodes c s) (o, h))

caught-Goes : (now : ℕ) (p : Rpc × Result (Unit {0})) → Goes p → Goes (caught now p)
unfolding caught
caught-Goes now (c, ok u) (h, e) = (h, refl)
caught-Goes now (c, err e) (h, k) = cc

-- An attempt that gets no text.
abbrev pub IsVain : ℕ × Meeting → Type 0
IsVain (now, answered change []) = Unit
IsVain (now, answered change (x ∷ xs)) = ⊥
IsVain (now, failed change) = Unit

-- What an attempt has done before its end is looked at.
sent-IsOpen :
    (change : NodePool → NodePool) (now : ℕ) (c : Rpc)
    → IsOpen c
    → IsOpen (with_pool change (count_call now c))
unfolding with_pool
sent-IsOpen change now c (o, h) =
    let (a, b, n, e) = increase_error_cnt_call-IsPatient now c.nodes h in
    (o, (has_pool-map change (increase_error_cnt_call now c.nodes).pool_manager ∙ a, b, n, e))

go_on_replied :
    (rest : Rpc → Rpc × Outcome) (p : Rpc × Result (Unit {0})) (t : Text)
    → Goes p
    → ((c : Rpc) → IsOpen c → (rest c).1 ≡ replied t)
    → (go_on rest p).1 ≡ replied t
unfolding go_on
go_on_replied rest (c, ok u) t (h, e) k = k c h
go_on_replied rest (c, err e) t (h, e') k = cc

-- If the retries of an open client have no bound, and it has nodes with their pool, then the loop
-- ends with the first text that a node replies, however many attempts fail or get an empty reply
-- before it, and whatever would follow.
pub attempts_patient :
    (ms rest : List (ℕ × Meeting)) (now : ℕ) (change : NodePool → NodePool) (x : ℕ) (xs : Text)
    (c : Rpc)
    → IsOpen c
    → All IsVain ms
    → (attempts (ms ++ (now, answered change (x ∷ xs)) ∷ rest) c).1 ≡ replied (x ∷ xs)
unfolding attempts empty_reply
attempts_patient [] rest now change x xs c h a = refl
attempts_patient ((t, answered sent []) ∷ ms) rest now change x xs c h (e, a) =
    let (o, h1) = sent-IsOpen sent t c h in
    let (h2, k) = sleep_call_checked t (with_pool sent (count_call t c)).nodes h1 in
    go_on_replied _ _ (x ∷ xs)
      (caught-Goes t _ (after_empty-Goes t (with_pool sent (count_call t c)) _ o h2 k))
      (λ c' o'. attempts_patient ms rest now change x xs c' o' a)
attempts_patient ((t, answered sent (y ∷ ys)) ∷ ms) rest now change x xs c h (e, a) = absurd e
attempts_patient ((t, failed sent) ∷ ms) rest now change x xs c h (e, a) =
    go_on_replied _ _ (x ∷ xs) (handle_transport_error-Goes t _ (sent-IsOpen sent t c h))
      (λ c' o'. attempts_patient ms rest now change x xs c' o' a)
