-- ===== src/Operations/Numbering.antt =====
-- The numbers of operations are their places among the names of src/nectarbase/operationids.py.
use hive_nectar.Prelude.{
  ℕ, suc, ◌-◌, ◌≤◌, ◌≡◌, refl, ◌↔◌, [], ◌∷◌, Bool-cases, inl, inr, some, Option-cases, List, arith,
  bytes_eq, bytes_eq→eq, ◌==◌, ==_iff, get_elem?,
}
use hive_nectar.Prelude.Int.{pos}
use hive_nectar.Prelude.Bytes.{Text}
use hive_nectar.Operations.Names.{ops, index_from, operation_id, name_with_id, operation_name}

-- An index is that of the name.
index_from_elem :
    (k : ℕ) (os : List Text) (name : Text) (n : ℕ)
    → index_from k os name ≡ some n
    → (k ≤ n) × (get_elem? os (n - k) ≡ some name)
unfolding index_from
index_from_elem k [] name n h = cc
index_from_elem k (o ∷ os) name n h = elim (Bool-cases (bytes_eq o name)) [
  | inl e ↦
      let here : some k ≡ some n = rw e at h in
      let same : k ≡ n = cc in
      let named = bytes_eq→eq o name e in
      let none_left : n - k ≡ 0 = omega arith in (omega arith, rw (none_left, named) refl)
  | inr e ↦
      let later : index_from (suc k) os name ≡ some n = rw e at h in
      let (le, found) = index_from_elem (suc k) os name n later in
      let step : n - k ≡ suc (n - suc k) = omega arith in (omega arith, rw step found)
]

pub operation_id_elem :
    (name : Text) (n : ℕ) → operation_id name ≡ some n → get_elem? ops n ≡ some name
unfolding operation_id
operation_id_elem name n h =
    let all : n - 0 ≡ n = omega arith in rw all at (index_from_elem 0 ops name n h).1

name_with_id_id :
    (os : List Text) (n : ℕ) (name : Text)
    → name_with_id os n ≡ some name
    → operation_id name ≡ some n
unfolding name_with_id operation_id index_from bytes_eq
name_with_id_id [] n name h = cc
name_with_id_id (o ∷ os) n name h = elim (Option-cases (operation_id o)) [
  | inl e ↦ name_with_id_id os n name (rw e at h)
  | inr (i, e) ↦ elim (Bool-cases (i == n)) [
    | inl s ↦
        let found : some o ≡ some name = rw (e, s) at h in
        let named : o ≡ name = cc in
        let same : i ≡ n = (==_iff i n).0 s in rw (← named, e, same) refl
    | inr s ↦ name_with_id_id os n name (rw (e, s) at h)
  ]
]

-- The name that has a number is found.
id_name_with_id :
    (k : ℕ) (os : List Text) (n i : ℕ) (name : Text)
    → index_from k os name ≡ some i
    → operation_id name ≡ some n
    → name_with_id os n ≡ some name
unfolding name_with_id index_from operation_id bytes_eq
id_name_with_id k [] n i name h e = cc
id_name_with_id k (o ∷ os) n i name h e = elim (Option-cases (operation_id o)) [
  | inl none' ↦ elim (Bool-cases (bytes_eq o name)) [
    | inl s ↦
        let named = bytes_eq→eq o name s in let bad : operation_id o ≡ some n = rw named e in cc
    | inr s ↦ rw none' (id_name_with_id (suc k) os n i name (rw s at h) e)
  ]
  | inr (j, f) ↦ elim (Bool-cases (j == n)) [
    | inl s ↦
        let same : j ≡ n = (==_iff j n).0 s in
        let one = operation_id_elem o j f in
        let two = operation_id_elem name n e in
        let two' : get_elem? ops j ≡ some name = rw same two in
        let named : o ≡ name = cc in rw (f, s, named) refl
    | inr s ↦ elim (Bool-cases (bytes_eq o name)) [
      | inl t ↦
          let named = bytes_eq→eq o name t in
          let f' : operation_id name ≡ some j = rw (← named) f in
          let same : j ≡ n = cc in let equal = (==_iff j n).1 same in cc
      | inr t ↦ rw (f, s) (id_name_with_id (suc k) os n i name (rw t at h) e)
    ]
  ]
]

-- A number has a name just if the name has the number: `getOperationNameForId` and the table of
-- numbers are inverse to each other.
pub operation_name-operation_id :
    (n : ℕ) (name : Text) → (operation_name (pos n) ≡ some name) ↔ (operation_id name ≡ some n)
unfolding operation_name operation_id
operation_name-operation_id n name =
    (name_with_id_id ops n name, λ e. id_name_with_id 0 ops n n name e e)
