-- ===== src/Builder/Threshold.antt =====
-- How many keys `_fetchkeys` of src/nectar/transactionbuilder.py takes.
use hive_nectar.Prelude.{
  ℕ, zero, suc, ◌+◌, ◌≤◌, ◌<◌, ◌≡◌, refl, arith, Bool-cases, inl, inr, true, Option, none, some,
  List, [], ◌∷◌, ◌++◌, append_assoc, leb, leb→le, le→leb, map, take, length, length-map,
  length-take, replicate, All, ok,
}
use hive_nectar.Prelude.Bytes.{Text}
use hive_nectar.Builder.{Authority, Account, Client, whole}
use hive_nectar.Builder.Signers.{
  weight, is_truthy, looked_up, taken, authority_of, own_keys, fetch_keys,
}

weight-append : (r s : List (Text × ℕ)) → weight (r ++ s) ≡ weight r + weight s
weight-append [] s = omega arith
weight-append ((k, w) ∷ r) s = omega (arith, weight-append r s)

taken_truthy :
    (k : Text) (w : ℕ) (r : List (Text × ℕ))
    → is_truthy (some k) ≡ true
    → taken (some k) w r ≡ r ++ (k, w) ∷ []
unfolding is_truthy taken
taken_truthy [] w r h = cc
taken_truthy (c ∷ cs) w r h = refl

-- The wallet has the key `wif p` for each public key `p` of the list.
abbrev pub Holds : Client → (Text → Text) → List (Text × ℕ) → Type 0
Holds client wif = All (λ x.
    (Client.private_key client x.0 ≡ ok (some (wif x.0))) × (is_truthy (some (wif x.0)) ≡ true))

abbrev pub keyed : (Text → Text) → List (Text × ℕ) → List (Text × ℕ)
keyed wif = map (λ x. (wif x.0, x.1))

weight-keyed : (wif : Text → Text) (xs : List (Text × ℕ)) → weight (keyed wif xs) ≡ weight xs
weight-keyed wif [] = refl
weight-keyed wif ((p, w) ∷ xs) = omega (arith, weight-keyed wif xs)

length-keyed : (wif : Text → Text) (xs : List (Text × ℕ)) → length (keyed wif xs) ≡ length xs
length-keyed wif xs = length-map xs _

-- The first `n` suffice, and no fewer.
abbrev pub IsLeast : ℕ → List (Text × ℕ) → ℕ → Type 0
IsLeast threshold auths n =
    (threshold ≤ weight (take n auths)) × ((m : ℕ) → m < n → weight (take m auths) < threshold)

module _ (client : Client) (wif : Text → Text) (threshold : ℕ) where
  fewer :
      (p : Text) (w : ℕ) (auths : List (Text × ℕ)) (n before with' : ℕ)
      → with' ≡ before + w
      → before < threshold
      → ((m : ℕ) → m < n → with' + weight (take m auths) < threshold)
      → (m : ℕ) → m < suc n
      → before + weight (take m ((p, w) ∷ auths)) < threshold
  fewer p w auths n before with' e l k zero b = omega (arith, l)
  fewer p w auths n before with' e l k (suc m) b = omega (arith, e, k m (omega (arith, b)))

  own_keys_held :
      (found : Option Text) (r auths : List (Text × ℕ))
      → Holds client wif auths
      → weight r < threshold
      → threshold ≤ weight r + weight auths
      → (n : ℕ) × (own_keys client threshold found r auths ≡ ok (r ++ keyed wif (take n auths)))
        × (threshold ≤ weight r + weight (take n auths))
        × ((m : ℕ) → m < n → weight r + weight (take m auths) < threshold)
        × (n ≤ length auths)
  unfolding own_keys looked_up
  own_keys_held found r [] a l h = let bad : ⊥ = omega (arith, l, h) in elim bad [ ]
  own_keys_held found r ((p, w) ∷ auths) ((e, t), a) l h =
      let r' = r ++ (wif p, w) ∷ [] in
      let more : weight r' ≡ weight r + w = omega (arith, weight-append r ((wif p, w) ∷ [])) in
      elim (Bool-cases (leb threshold (weight r'))) [
        | inl s ↦ (
          1,
          rw (e, taken_truthy (wif p) w r t, s) refl,
          omega (arith, leb→le threshold (weight r') s, more),
          (λ m b. let none_yet : m ≡ 0 = omega (arith, b) in rw none_yet (omega (arith, l))),
          omega arith,
        )
        | inr s ↦
            let low : weight r' < threshold = ground arith in
            let (n, f, g, k, z) =
              own_keys_held (some (wif p)) r' auths a low (omega (arith, h, more)) in
            (
              suc n,
              rw (e, taken_truthy (wif p) w r t, s) (rw append_assoc at f),
              omega (arith, g, more),
              fewer p w auths n (weight r) (weight r') more l k,
              omega (arith, z),
            )
      ]

  -- When the wallet has a key for each key of the account's permission, and their weights come to
  -- the threshold, which is above 0, `_fetchkeys` returns the keys of the first `n` of them, with
  -- their weights and in their order, where `n` is the least number whose weights come to the
  -- threshold.
  pub fetch_keys-IsLeast :
      (levels : ℕ) (perm : Text) (account : Account)
      → 0 < threshold
      → Holds client wif (Authority.key_auths (authority_of account perm))
      → threshold ≤ weight (Authority.key_auths (authority_of account perm))
      → (n : ℕ) × (fetch_keys client (suc levels) perm account threshold
          ≡ ok (
            keyed wif (take n (Authority.key_auths (authority_of account perm))),
            replicate n (whole (Account.name account)),
          ))
        × IsLeast threshold (Authority.key_auths (authority_of account perm)) n
  unfolding fetch_keys
  fetch_keys-IsLeast levels perm account t a h =
      let auths = Authority.key_auths (authority_of account perm) in
      let (n, f, g, k, z) = own_keys_held none [] auths a t (omega (arith, h)) in
      let kept = keyed wif (take n auths) in
      let same : weight kept ≡ weight (take n auths) = weight-keyed wif (take n auths) in
      let enough : leb threshold (weight kept) ≡ true = le→leb _ _ (omega (arith, g, same)) in
      let counted : length kept ≡ n =
        omega (arith, length-keyed wif (take n auths), length-take n auths, z) in
      (n, rw (f, enough, counted) refl, (omega (arith, g), (λ m b. omega (arith, k m b))))
