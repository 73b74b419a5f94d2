-- ===== src/Pool/Choice.antt =====
-- Which node src/nectarapi/pool.py makes the active one.
use hive_nectar.Prelude.{
  ℕ, zero, suc, ◌+◌, ◌≡◌, refl, sym, true, false, List, [], ◌∷◌, some, All-if, All-if_head,
  All-if_tail, get_elem?, All, arith,
}
use mathlib.Core.Path.{subst}
use hive_nectar.Pool.{
  Penalty, finite, infinite, leb_penalty, RpcNode, Candidate, indexed, only_healthy, by_penalty,
  first, choose,
}
use hive_nectar.Pool.Sort.{sort, Best, sort-Best}

leb_penalty_refl : (a : Penalty) → leb_penalty a a ≡ true
unfolding leb_penalty
leb_penalty_refl (finite a) = ground arith
leb_penalty_refl infinite = refl

leb_penalty_total : (a b : Penalty) → leb_penalty a b ≡ false → leb_penalty b a ≡ true
unfolding leb_penalty
leb_penalty_total (finite a) (finite b) h = ground arith
leb_penalty_total (finite a) infinite h = cc
leb_penalty_total infinite (finite b) h = refl
leb_penalty_total infinite infinite h = refl

leb_penalty_trans :
    (a b c : Penalty) → leb_penalty a b ≡ true → leb_penalty b c ≡ true → leb_penalty a c ≡ true
unfolding leb_penalty
leb_penalty_trans (finite a) (finite b) (finite c) h k = ground arith
leb_penalty_trans (finite a) (finite b) infinite h k = refl
leb_penalty_trans (finite a) infinite (finite c) h k = cc
leb_penalty_trans (finite a) infinite infinite h k = refl
leb_penalty_trans infinite (finite b) (finite c) h k = cc
leb_penalty_trans infinite (finite b) infinite h k = refl
leb_penalty_trans infinite infinite c h k = k

module _ (P : Candidate → Type 0) where
  least : (cs : List Candidate) → All P cs → Best by_penalty P cs (sort by_penalty cs)
  least =
      sort-Best by_penalty (λ c. leb_penalty_refl c.1.penalty)
        (λ c d. leb_penalty_total c.1.penalty d.1.penalty)
        (λ c d e. leb_penalty_trans c.1.penalty d.1.penalty e.1.penalty) P

-- A candidate stands where it says in the pool, and is healthy.
abbrev pub IsHealthyAt : List RpcNode → ℕ → RpcNode → Type 0
IsHealthyAt ns i n = (get_elem? ns i ≡ some n) × (n.healthy ≡ true)

abbrev Stands : List RpcNode → ℕ → Candidate → Type 0
Stands ns k c = (i : ℕ) × (c.0 ≡ k + i) × IsHealthyAt ns i c.1

Stands-later :
    (n : RpcNode) (ns : List RpcNode) (k : ℕ) (cs : List Candidate)
    → All (Stands ns (suc k)) cs
    → All (Stands (n ∷ ns) k) cs
Stands-later n ns k [] a = tt
Stands-later n ns k (c ∷ cs) ((i, e, h), a) = ((suc i, omega arith, h), Stands-later n ns k cs a)

healthy_Stands : (ns : List RpcNode) (k : ℕ) → All (Stands ns k) (only_healthy (indexed k ns))
unfolding only_healthy indexed
healthy_Stands [] k = tt
healthy_Stands (n ∷ ns) k =
    All-if (Stands (n ∷ ns) k) n.healthy (k, n) _ (λ h. (0, omega arith, (refl, h)))
      (Stands-later n ns k _ (healthy_Stands ns (suc k)))

-- What holds of all healthy candidates holds of each healthy node.
at_healthy :
    (Q : Candidate → Type 0) (ns : List RpcNode) (k i : ℕ) (n : RpcNode)
    → All Q (only_healthy (indexed k ns))
    → IsHealthyAt ns i n
    → Q (k + i, n)
unfolding only_healthy indexed
at_healthy Q [] k i n a (e, h) = cc
at_healthy Q (m ∷ ns) k zero n a (e, h) =
    let same : m ≡ n = cc in
    let here : Q (k, m) =
      All-if_head Q m.healthy (k, m) _ a (subst (λ x. x.healthy ≡ true) (sym same) h) in
    subst (λ x. Q (k + 0, x)) same (subst (λ j. Q (j, m)) (omega arith) here)
at_healthy Q (m ∷ ns) k (suc i) n a (e, h) =
    subst (λ j. Q (j, n)) (omega arith)
      (at_healthy Q ns (suc k) i n (All-if_tail Q m.healthy (k, m) _ a) (e, h))

-- If some node is healthy, the chosen node is healthy, and no healthy node has a lower penalty.
pub choose_least :
    (ns : List RpcNode) (old i : ℕ) (n : RpcNode)
    → IsHealthyAt ns i n
    → (m : RpcNode) × IsHealthyAt ns (choose ns old) m
      × ((j : ℕ) (k : RpcNode) → IsHealthyAt ns j k → leb_penalty m.penalty k.penalty ≡ true)
unfolding choose
choose_least ns old i n h =
    pick (sort by_penalty (only_healthy (indexed 0 ns)))
      (least (Stands ns 0) _ (healthy_Stands ns 0))
  where
    pick :
        (cs : List Candidate)
        → Best by_penalty (Stands ns 0) (only_healthy (indexed 0 ns)) cs
        → (m : RpcNode) × IsHealthyAt ns (first cs (first (sort by_penalty (indexed 0 ns)) old)) m
          × ((j : ℕ) (k : RpcNode) → IsHealthyAt ns j k → leb_penalty m.penalty k.penalty ≡ true)
    pick [] b = absurd (at_healthy (λ _. ⊥) ns 0 i n (subst (All (λ _. ⊥)) (sym b) tt) h)
    pick (c ∷ cs) ((j, e, g), b) = (
      c.1,
      subst (λ x. IsHealthyAt ns x c.1) (omega arith) g,
      λ j k g'. at_healthy (λ d. by_penalty c d ≡ true) ns 0 j k b g',
    )
