-- ===== src/Nodes/Counts.antt =====
-- The counts of src/nectarapi/node.py that bound the retries.
use mathlib.Core.Option
use hive_nectar.Prelude.{
  ℕ, zero, suc, ◌≡◌, refl, ap, ◌∙◌, Bool, true, false, inl, inr, List, [], ◌∷◌, map, length, ◌==◌,
  if◌then◌else◌, Option, none, some, Option-cases, Bool-cases, ok, All, arith,
}
use hive_nectar.Prelude.Int.{ℤ, pos, negsuc}
use hive_nectar.Prelude.Bytes.{Text}
use hive_nectar.Pool.{RpcNode, NodePool}
use hive_nectar.Nodes.{
  Node, Nodes, Urls, url_list, new_node, set_node_urls, new_nodes, current_url, next, node,
  read_count, field_at, write_at, fail_active, change_node, disable_node, increase_error_cnt,
  increase_error_cnt_call, change_active, reset_error_cnt_call, reset_error_cnt, sleeptime,
  is_spent, sleep_and_check_retries,
}

-- Whether there is a pool.
abbrev pub has_pool : Option NodePool → Bool
has_pool none = false
has_pool (some p) = true

-- No node of the list has counted a call, and there is a pool.
abbrev Silent : Nodes → Type 0
Silent s = All (λ n. n.error_cnt_call ≡ 0) s.list × (has_pool s.pool_manager ≡ true)

new_nodes-Silent : (urls : List Text) → All (λ n. n.error_cnt_call ≡ 0) (map new_node urls)
new_nodes-Silent [] = tt
new_nodes-Silent (u ∷ us) = (refl, new_nodes-Silent us)

increase_error_cnt_call-Silent :
    (now : ℕ) (s : Nodes) → Silent s → Silent (increase_error_cnt_call now s)
unfolding increase_error_cnt_call
increase_error_cnt_call-Silent now s (a, b) = elim (Option-cases s.pool_manager) [
  | inl e ↦ cc
  | inr (p, e) ↦ rw e (a, refl)
]

node-Silent : (now : ℕ) (s : Nodes) → Silent s → Silent (node now s).0
unfolding node
node-Silent now s (a, b) = elim (Option-cases s.pool_manager) [
  | inl e ↦ cc
  | inr (p, e) ↦ rw e (a, refl)
]

current_url-Silent : (now : ℕ) (s : Nodes) → Silent s → Silent (current_url now s).0
unfolding current_url
current_url-Silent now s (a, b) = elim (Bool-cases (length s.list == 0)) [
  | inl l ↦ rw l (a, b)
  | inr l ↦ elim (Option-cases s.pool_manager) [ inl e ↦ cc | inr (p, e) ↦ rw (l, e) (a, refl) ]
]

Silent-if :
    {A : Type 0} (b : Bool) (x y : Nodes × A)
    → Silent x.0
    → Silent y.0
    → Silent (if b then x else y).0
Silent-if true x y h k = h
Silent-if false x y h k = k

next-Silent : (now : ℕ) (s : Nodes) → Silent s → Silent (next now s).0
unfolding next
next-Silent now s (a, b) = Silent-if s.freeze_current_node _ _ (current_url-Silent now s (a, b)) (
    Silent-if (length s.list == 0) _ _ (a, b)
      (elim (Option-cases s.pool_manager) [ inl e ↦ cc | inr (p, e) ↦ rw e (a, refl) ]))

change_active-Silent :
    (f : RpcNode → RpcNode) (now : ℕ) (s : Nodes) → Silent s → Silent (change_active f now s)
unfolding change_active
change_active-Silent f now s (a, b) = elim (Option-cases s.pool_manager) [
  | inl e ↦ cc
  | inr (p, e) ↦ rw e (a, refl)
]

write_at-Silent :
    (f : Node → Node) (i : Option ℕ) (ns : List Node)
    → ((n : Node) → (f n).error_cnt_call ≡ n.error_cnt_call)
    → All (λ n. n.error_cnt_call ≡ 0) ns
    → All (λ n. n.error_cnt_call ≡ 0) (write_at f i ns)
unfolding write_at
write_at-Silent f none ns h a = a
write_at-Silent f (some i) [] h a = a
write_at-Silent f (some zero) (n ∷ ns) h (e, a) = (h n ∙ e, a)
write_at-Silent f (some (suc i)) (n ∷ ns) h (e, a) = (e, write_at-Silent f (some i) ns h a)

change_node-Silent :
    (f : Node → Node) (now : ℕ) (s : Nodes)
    → ((n : Node) → (f n).error_cnt_call ≡ n.error_cnt_call)
    → Silent s
    → Silent (change_node f now s).0
unfolding change_node node fail_active
change_node-Silent f now s h (a, b) = elim (Option-cases s.pool_manager) [
  | inl e ↦ cc
  | inr (p, e) ↦ rw e (write_at-Silent f _ s.list h a, refl)
]

pub has_pool-map :
    (change : NodePool → NodePool) (o : Option NodePool)
    → has_pool (Option.map change o) ≡ has_pool o
has_pool-map change none = refl
has_pool-map change (some p) = refl

-- What a client can do to its nodes, each call at its own time.
pub data Reached : Nodes → Type 0 where
  created : (now : ℕ) (urls : Urls) (retries calls : ℤ) → Reached (new_nodes now urls retries calls)
  replaced : (now : ℕ) (urls : Urls) {s : Nodes} → Reached s → Reached (set_node_urls now urls s)
  read_url : (now : ℕ) {s : Nodes} → Reached s → Reached (current_url now s).0
  moved : (now : ℕ) {s : Nodes} → Reached s → Reached (next now s).0
  froze :
      (index : ℤ) {s : Nodes}
      → Reached s
      → Reached (record s { current_node_index = index; freeze_current_node = true })
  read_node : (now : ℕ) {s : Nodes} → Reached s → Reached (node now s).0
  disabled : (now : ℕ) {s : Nodes} → Reached s → Reached (disable_node now s).0
  failed : (now : ℕ) {s : Nodes} → Reached s → Reached (increase_error_cnt now s).0
  called : (now : ℕ) {s : Nodes} → Reached s → Reached (increase_error_cnt_call now s)
  reset_call : (now : ℕ) {s : Nodes} → Reached s → Reached (reset_error_cnt_call now s)
  reset : (now : ℕ) {s : Nodes} → Reached s → Reached (reset_error_cnt now s)
  checked :
      (sleep call_retry : Bool) (now : ℕ) {s : Nodes}
      → Reached s
      → Reached (sleep_and_check_retries sleep call_retry now s).0
  -- Who shares the pool changes it.
  shared :
      (change : NodePool → NodePool) {s : Nodes}
      → Reached s
      → Reached (record s { pool_manager = Option.map change s.pool_manager })

read_count-Silent :
    (field : Node → ℕ) (now : ℕ) (s : Nodes) → Silent s → Silent (read_count field now s).0
unfolding read_count
read_count-Silent field now s h = node-Silent now s h

sleep-Silent :
    (sleep call_retry : Bool) (now : ℕ) (s : Nodes)
    → Silent s
    → Silent (sleep_and_check_retries sleep call_retry now s).0
unfolding sleep_and_check_retries
sleep-Silent sleep true now s h = read_count-Silent _ now _ (node-Silent now s h)
sleep-Silent sleep false now s h = read_count-Silent _ now _ (node-Silent now s h)

Reached-Silent : {s : Nodes} → Reached s → Silent s
unfolding new_nodes set_node_urls disable_node increase_error_cnt reset_error_cnt_call
    reset_error_cnt
Reached-Silent (created now urls retries calls) = (new_nodes-Silent (url_list urls), refl)
Reached-Silent (replaced now urls r) = (new_nodes-Silent (url_list urls), refl)
Reached-Silent (read_url now r) = current_url-Silent now _ (Reached-Silent r)
Reached-Silent (moved now r) = next-Silent now _ (Reached-Silent r)
Reached-Silent (froze index r) = Reached-Silent r
Reached-Silent (read_node now r) = node-Silent now _ (Reached-Silent r)
Reached-Silent (disabled now r) = change_node-Silent _ now _ (λ n. refl) (Reached-Silent r)
Reached-Silent (failed now r) = change_node-Silent _ now _ (λ n. refl) (Reached-Silent r)
Reached-Silent (called now r) = increase_error_cnt_call-Silent now _ (Reached-Silent r)
Reached-Silent (reset_call now r) = change_active-Silent _ now _ (Reached-Silent r)
Reached-Silent (reset now r) = change_active-Silent _ now _ (Reached-Silent r)
Reached-Silent (checked sleep call_retry now r) =
    sleep-Silent sleep call_retry now _ (Reached-Silent r)
Reached-Silent (shared change {s} r) =
    let (a, b) = Reached-Silent r in (a, has_pool-map change s.pool_manager ∙ b)

field_at-Silent :
    (ns : List Node) (i : Option ℕ)
    → All (λ n. n.error_cnt_call ≡ 0) ns
    → field_at (λ n. n.error_cnt_call) ns i ≡ 0
field_at-Silent ns none a = refl
field_at-Silent [] (some i) a = refl
field_at-Silent (n ∷ ns) (some zero) (e, a) = e
field_at-Silent (n ∷ ns) (some (suc i)) (e, a) = field_at-Silent ns (some i) a

read_count-quiet :
    (now : ℕ) (s : Nodes) → Silent s → (read_count (λ n. n.error_cnt_call) now s).1 ≡ ok 0
unfolding read_count node
read_count-quiet now s (a, b) = elim (Option-cases s.pool_manager) [
  | inl e ↦ cc
  | inr (p, e) ↦ rw e (ap ok (field_at-Silent s.list _ a))
]

spent_zero : (bound : ℤ) → is_spent bound 0 ≡ false
unfolding is_spent
spent_zero (pos n) = ground arith
spent_zero (negsuc n) = ground arith

no_sleep : (sleep : Bool) → (if sleep then sleeptime 0 else 0) ≡ 0
unfolding sleeptime
no_sleep true = refl
no_sleep false = refl

-- After whatever calls, the check of the call retries lets the caller go on and does not sleep,
-- whatever the bound is: the count that it reads stays 0.
pub call_retries_unbounded :
    (sleep : Bool) (now : ℕ) (s : Nodes)
    → Reached s
    → (sleep_and_check_retries sleep true now s).1 ≡ ok 0
unfolding sleep_and_check_retries
call_retries_unbounded sleep now s r =
    let zero_count = read_count-quiet now (node now s).0 (node-Silent now s (Reached-Silent r)) in
    rw (zero_count, spent_zero s.num_retries_call) (ap ok (no_sleep sleep))
