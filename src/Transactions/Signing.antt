-- ===== src/Transactions/Signing.antt =====
-- `sign` of src/nectargraphenebase/signedtransactions.py: which signatures it adds, and what it leaves.
use hive_nectar.Prelude.{
  ◌≡◌, refl, ◌∙◌, [], ◌∷◌, Bool, Bool-cases, inl, inr, true, false, List, Result, ok, err,
  >>=-eq-ok, general, All, bytes_eq, bytes_eq→eq, if◌then◌else◌,
}
use hive_nectar.Prelude.Bytes.{Bytes, Text}
use hive_nectar.Values.{Value, truthy, traverse}
use hive_nectar.Transactions.{
  Transaction, fields_with, derive_digest, transaction_id, without, unique, sign, check_chain,
}

abbrev pub has_key : Text → List Text → Bool
has_key wif [] = false
has_key wif (x ∷ xs) = if bytes_eq wif x then true else has_key wif xs

-- Each key stands once.
abbrev pub IsUnique : List Text → Type 0
IsUnique [] = Unit
IsUnique (x ∷ xs) = All (λ y. bytes_eq x y ≡ false) xs × IsUnique xs

without_absent : (x : Text) (xs : List Text) → All (λ y. bytes_eq x y ≡ false) (without x xs)
unfolding without
without_absent x [] = tt
without_absent x (y ∷ ys) = elim (Bool-cases (bytes_eq x y)) [
  | inl e ↦ rw (e, without) (without_absent x ys)
  | inr e ↦ rw (e, without) (e, without_absent x ys)
]

without-All : (P : Text → Type 0) (x : Text) (xs : List Text) → All P xs → All P (without x xs)
unfolding without
without-All P x [] a = tt
without-All P x (y ∷ ys) (p, a) = elim (Bool-cases (bytes_eq x y)) [
  | inl e ↦ rw (e, without) (without-All P x ys a)
  | inr e ↦ rw (e, without) (p, without-All P x ys a)
]

without-IsUnique : (x : Text) (xs : List Text) → IsUnique xs → IsUnique (without x xs)
unfolding without
without-IsUnique x [] u = tt
without-IsUnique x (y ∷ ys) (a, u) = elim (Bool-cases (bytes_eq x y)) [
  | inl e ↦ rw (e, without) (without-IsUnique x ys u)
  | inr e ↦ rw (e, without) (without-All _ x ys a, without-IsUnique x ys u)
]

unique-IsUnique : (xs : List Text) → IsUnique (unique xs)
unfolding unique
unique-IsUnique [] = tt
unique-IsUnique (x ∷ xs) =
    (without_absent x (unique xs), without-IsUnique x (unique xs) (unique-IsUnique xs))

has_key-without :
    (wif x : Text) (xs : List Text)
    → bytes_eq wif x ≡ false
    → has_key wif (without x xs) ≡ has_key wif xs
unfolding without
has_key-without wif x [] d = refl
has_key-without wif x (y ∷ ys) d = elim (Bool-cases (bytes_eq x y)) [
  | inl e ↦
      let same = bytes_eq→eq x y e in
      let other : bytes_eq wif y ≡ false = rw same at d in
      rw (e, other, without) (has_key-without wif x ys d)
  | inr e ↦ rw (e, without, has_key-without wif x ys d) refl
]

has_key-unique : (wif : Text) (xs : List Text) → has_key wif (unique xs) ≡ has_key wif xs
unfolding unique
has_key-unique wif [] = refl
has_key-unique wif (x ∷ xs) = elim (Bool-cases (bytes_eq wif x)) [
  | inl e ↦ rw e refl
  | inr e ↦ rw e (has_key-without wif x (unique xs) e ∙ has_key-unique wif xs)
]

checked : (chain : Value) {given : Value} → check_chain chain ≡ ok given → given ≡ chain
unfolding check_chain
checked chain {given} h = elim (Bool-cases (truthy chain)) [
  | inl e ↦ let good : ok chain ≡ ok given = rw e at h in cc
  | inr e ↦ let bad : err general ≡ ok given = rw e at h in cc bad
]

module _ (sha256 : Bytes → Bytes) (sign_message : Bytes → Text → Result Bytes) where
  -- Every key that is given has signed the message, and nothing else has.
  abbrev pub IsSigned : List Text → Value → Transaction → Transaction → Type 0
  IsSigned wifs chain tx tx' =
      (keys : List Text) × IsUnique keys
      × ((wif : Text) → has_key wif keys ≡ has_key wif wifs)
      × (message : Bytes) × (digest : Bytes) × (derive_digest sha256 chain tx
          ≡ ok (message, digest))
      × (traverse (sign_message message) keys ≡ ok (Transaction.signatures tx'))

  signed_parts :
      (wifs : List Text) (chain : Value) (tx tx' : Transaction)
      → sign sha256 sign_message wifs chain tx ≡ ok tx'
      → (message : Bytes) × (digest : Bytes) × (sigs : List Bytes) × (derive_digest sha256 chain tx
          ≡ ok (message, digest))
        × (traverse (sign_message message) (unique wifs) ≡ ok sigs)
        × (tx' ≡ record tx { signatures = sigs })
  unfolding sign
  signed_parts wifs chain tx tx' h =
      let (given, e, h1) = >>=-eq-ok (check_chain chain) _ h in
      let ((message, digest), d, h2) = >>=-eq-ok (derive_digest sha256 given tx) _ h1 in
      let (sigs, t, h3) = >>=-eq-ok (traverse (sign_message message) (unique wifs)) _ h2 in
      let same = checked chain e in (message, digest, sigs, rw same at d, t, cc)

  -- When `sign` succeeds, the transaction has as its signatures those of the message by each of the
  -- given keys, every key once and no other.
  pub sign-IsSigned :
      (wifs : List Text) (chain : Value) (tx tx' : Transaction)
      → sign sha256 sign_message wifs chain tx ≡ ok tx'
      → IsSigned wifs chain tx tx'
  sign-IsSigned wifs chain tx tx' h =
      let (message, digest, sigs, d, t, e) = signed_parts wifs chain tx tx' h in
      let last : Transaction.signatures tx' ≡ sigs = rw e refl in
      (
        unique wifs,
        unique-IsUnique wifs,
        λ wif. has_key-unique wif wifs,
        message,
        digest,
        d,
        rw last t,
      )

  -- Signing changes neither the id of the transaction nor the message that is signed for the chain.
  pub sign_kept :
      (wifs : List Text) (chain : Value) (tx tx' : Transaction)
      → sign sha256 sign_message wifs chain tx ≡ ok tx'
      → (transaction_id sha256 tx' ≡ transaction_id sha256 tx)
        × (derive_digest sha256 chain tx' ≡ derive_digest sha256 chain tx)
  unfolding transaction_id derive_digest fields_with
  sign_kept wifs chain tx tx' h =
      let (message, digest, sigs, d, t, e) = signed_parts wifs chain tx tx' h in rw e (refl, refl)
