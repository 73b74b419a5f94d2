-- ===== src/Nodes/Budget.antt =====
-- The retry budget of src/nectarapi/node.py: failures add up until some node has spent its retries.
use mathlib.Core.Path.{subst}
use hive_nectar.Prelude.{
  ℕ, zero, suc, ◌+◌, ◌*◌, ◌≤◌, ◌<◌, ◌≡◌, refl, ap, ◌∙◌, Bool, true, false, ◌||◌, inl, inr, ◌⊎◌,
  List, [], ◌∷◌, length, if◌then◌else◌, Option, none, some, Option-cases, Bool-cases, modify, arith,
  bytes_eq,
}
use hive_nectar.Prelude.Int.{ℤ, pos}
use hive_nectar.Prelude.Bytes.{Text}
use hive_nectar.Pool.{get_active_node}
use hive_nectar.Nodes.{
  Node, Nodes, node, place, find_url, active_url, write_at, fail_active, change_node,
  increase_error_cnt, is_spent,
}
use hive_nectar.Nodes.Counts.{has_pool}

unfoldable pub total_errors : List Node → ℕ
total_errors [] = 0
total_errors (n ∷ ns) = n.error_cnt + total_errors ns

-- Failures of the current node, at the given times.
unfoldable pub fail_times : List ℕ → Nodes → Nodes
fail_times [] s = s
fail_times (now ∷ times) s = fail_times times (increase_error_cnt now s).0

-- Whether some node of the list has more errors than the retries allow.
unfoldable pub any_spent : ℤ → List Node → Bool
any_spent bound [] = false
any_spent bound (n ∷ ns) = is_spent bound n.error_cnt || any_spent bound ns

if_some :
    (b : Bool) (k : ℕ) (o : Option ℕ) (i : ℕ)
    → (if b then some k else o) ≡ some i
    → (k ≡ i) ⊎ (o ≡ some i)
if_some true k o i e = inl (cc)
if_some false k o i e = inr e

or_false : (a b : Bool) → (a || b) ≡ false → (a ≡ false) × (b ≡ false)
or_false true b e = cc
or_false false b e = (refl, e)

not_spent : (r cnt : ℕ) → is_spent (pos r) cnt ≡ false → cnt ≤ r
unfolding is_spent
not_spent r cnt e = ground arith

find_url_below :
    (u : Text) (k i : ℕ) (ns : List Node) → find_url u k ns ≡ some i → (k ≤ i) × (i < k + length ns)
unfolding find_url
find_url_below u k i [] e = cc
find_url_below u k i (n ∷ ns) e = elim (if_some (bytes_eq n.url u) k (find_url u (suc k) ns) i e) [
  | inl e ↦ (omega arith, omega arith)
  | inr e ↦ let (l, m) = find_url_below u (suc k) i ns e in (omega arith, omega arith)
]

abbrev IsPlace : List Node → Option ℕ → Type 0
IsPlace ns o = (i : ℕ) × (o ≡ some i) × (i < length ns)

place-IsPlace :
    (u : Text) (ns : List Node) → 0 < length ns → IsPlace ns (place (find_url u 0 ns) ns)
unfolding place
place-IsPlace u [] l = absurd (omega (arith, l))
place-IsPlace u (n ∷ ns) l = elim (Option-cases (find_url u 0 (n ∷ ns))) [
  | inl e ↦ rw e (0, refl, omega arith)
  | inr (i, e) ↦ rw e (i, refl, omega (arith, (find_url_below u 0 i (n ∷ ns) e).1))
]

abbrev bump : Node → Node
bump n = record n { error_cnt = n.error_cnt + 1 }

total_errors-bump :
    (ns : List Node) (i : ℕ) → i < length ns → total_errors (modify i bump ns) ≡ total_errors ns + 1
unfolding total_errors
total_errors-bump [] i l = absurd (omega (arith, l))
total_errors-bump (n ∷ ns) zero l = omega arith
total_errors-bump (n ∷ ns) (suc i) l = omega (arith, total_errors-bump ns i (omega (arith, l)))

length-modify : (f : Node → Node) (ns : List Node) (i : ℕ) → length (modify i f ns) ≡ length ns
length-modify f [] i = refl
length-modify f (n ∷ ns) zero = refl
length-modify f (n ∷ ns) (suc i) = ap suc (length-modify f ns i)

write_at-total :
    (ns : List Node) (o : Option ℕ)
    → IsPlace ns o
    → (total_errors (write_at bump o ns) ≡ total_errors ns + 1)
      × (length (write_at bump o ns) ≡ length ns)
unfolding write_at
write_at-total ns none (i, e, l) = cc
write_at-total ns (some j) (i, e, l) =
    let same : i ≡ j = cc in
    (total_errors-bump ns j (subst (λ k. k < length ns) same l), length-modify bump ns j)

-- What one failure does: one error more, and the same number of nodes.
increase_error_cnt-total :
    (now : ℕ) (s : Nodes)
    → 0 < length s.list
    → has_pool s.pool_manager ≡ true
    → let q = (increase_error_cnt now s).0 in
      (total_errors q.list ≡ total_errors s.list + 1)
      × (length q.list ≡ length s.list)
      × (has_pool q.pool_manager ≡ true)
unfolding increase_error_cnt change_node node fail_active
increase_error_cnt-total now s l b = elim (Option-cases s.pool_manager) [
  | inl e ↦ cc
  | inr (p, e) ↦
      let (t, n) =
        write_at-total s.list _ (place-IsPlace (active_url (get_active_node now p)) s.list l) in
      rw e (t, n, refl)
]

fail_times-total :
    (times : List ℕ) (s : Nodes)
    → 0 < length s.list
    → has_pool s.pool_manager ≡ true
    → (total_errors (fail_times times s).list ≡ total_errors s.list + length times)
      × (length (fail_times times s).list ≡ length s.list)
unfolding fail_times
fail_times-total [] s l b = (omega arith, refl)
fail_times-total (now ∷ times) s l b =
    let (t, n, c) = increase_error_cnt-total now s l b in
    let (t', n') = fail_times-total times (increase_error_cnt now s).0 (omega (arith, l, n)) c in
    (omega (arith, t, t'), n' ∙ n)

unspent_total :
    (r : ℕ) (ns : List Node) → any_spent (pos r) ns ≡ false → total_errors ns ≤ length ns * r
unfolding any_spent total_errors
unspent_total r [] e = omega arith
unspent_total r (n ∷ ns) e =
    let (a, b) = or_false (is_spent (pos r) n.error_cnt) (any_spent (pos r) ns) e in
    omega (arith, not_spent r n.error_cnt a, unspent_total r ns b)

-- With a pool and at least one node, when there are more failures than the retries of all nodes
-- together, some node has more errors than its retries allow, whichever nodes were active
-- meanwhile.
pub fail_times_spent :
    (times : List ℕ) (s : Nodes) (retries : ℕ)
    → 0 < length s.list
    → has_pool s.pool_manager ≡ true
    → length s.list * retries < length times
    → any_spent (pos retries) (fail_times times s).list ≡ true
fail_times_spent times s retries l b m =
    elim (Bool-cases (any_spent (pos retries) (fail_times times s).list)) [
      | inl e ↦ e
      | inr e ↦
          let (t, n) = fail_times-total times s l b in
          let few = unspent_total retries _ e in
          let few' = subst (λ k. total_errors (fail_times times s).list ≤ k * retries) n few in
          absurd (omega (arith, t, few', m))
    ]
