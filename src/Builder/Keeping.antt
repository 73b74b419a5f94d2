-- ===== src/Builder/Keeping.antt =====
-- What the search for keys in src/nectar/transactionbuilder.py leaves alone.
use hive_nectar.Prelude.{
  ℕ, Bool, true, false, ◌≡◌, refl, sym, ap, ◌∙◌, List, [], ◌∷◌, Error, invalid_wif, Result, ok,
  if◌then◌else◌,
}
use hive_nectar.Prelude.Bytes.{Text}
use hive_nectar.Builder.{
  Account, Client, Builder, Run, after, after-eq-ok, pass, raise, lift, self, append_wif, add,
  Signer,
}
use hive_nectar.Builder.Signers.{fetch_keys}
use hive_nectar.Builder.Methods.{
  note_signers, append_wifs, fetched, fetched_if, add_signer, sign_by_wallet, append_signer,
}

-- The builder that a method that returns leaves.
pub moved :
    {A : Type 0} {x b' : Builder} {result result' : Result A}
    → ◌≡◌ {A = Builder × Result A} (x, result) (b', result')
    → b' ≡ x
moved h = sym (ap (λ p. p.0) h)

-- The operations and what has been sent are the same.
abbrev pub Kept : Builder → Builder → Type 0
Kept b b' = (b'.ops ≡ b.ops) × (b'.sent ≡ b.sent)

abbrev pub Keeps : {A : Type 0} → Run A → Type 0
Keeps {A} method = (b b' : Builder) (a : A) → method b ≡ (b', ok a) → Kept b b'

module _ {A B : Type 0} where
  after-Kept :
      (b : Builder) (first : Builder × Result A) (next : A → Run B)
      → ((b1 : Builder) (a : A) → first ≡ (b1, ok a) → Kept b b1)
      → ((a : A) → Keeps (next a))
      → (b' : Builder) (result : B) → after first next ≡ (b', ok result)
      → Kept b b'
  after-Kept b first next k n b' result h =
      let (b1, a, e, h1) = after-eq-ok first next h in
      let (o, s) = k b1 a e in let (o', s') = n a b1 b' result h1 in (o' ∙ o, s' ∙ s)

  bind-Keeps :
      (method : Run A) (next : A → Run B)
      → Keeps method
      → ((a : A) → Keeps (next a))
      → Keeps (λ b. after (method b) next)
  bind-Keeps method next k n b = after-Kept b (method b) next (k b) n

module _ {A : Type 0} where
  if-Keeps : (c : Bool) (x y : Run A) → Keeps x → Keeps y → Keeps (if c then x else y)
  if-Keeps true x y k l = k
  if-Keeps false x y k l = l

  if_at-Keeps : (c : Bool) (x y : Run A) → Keeps x → Keeps y → Keeps (λ b. if c then x b else y b)
  if_at-Keeps true x y k l = k
  if_at-Keeps false x y k l = l

  pass-Keeps : (a : A) → Keeps (pass a)
  pass-Keeps a b b' a' h = let same : b' ≡ b = cc in rw same (refl, refl)

  raise-Keeps : (e : Error) → Keeps {A = A} (raise e)
  raise-Keeps e b b' a' h = cc

  lift-Keeps : (r : Result A) → Keeps (lift r)
  lift-Keeps r b b' a' h = let same : b' ≡ b = cc in rw same (refl, refl)

note_signers-Keeps : (signers : List Signer) → Keeps (note_signers signers)
note_signers-Keeps signers b b' a h = rw (moved h) (refl, refl)

module _ (client : Client) where
  append_wif-Keeps : (wif : Text) → Keeps (append_wif client wif)
  unfolding append_wif
  append_wif-Keeps [] = pass-Keeps tt
  append_wif-Keeps (c ∷ wif) =
      if_at-Keeps (Client.is_wif client (c ∷ wif))
        (λ b. (record b { wifs = add (c ∷ wif) b.wifs }, ok tt)) (raise invalid_wif)
        (λ b b' a h. rw (moved h) (refl, refl)) (raise-Keeps _)

  append_wifs-Keeps : (keys : List (Text × ℕ)) → Keeps (append_wifs client keys)
  unfolding append_wifs
  append_wifs-Keeps [] = pass-Keeps tt
  append_wifs-Keeps ((wif, w) ∷ keys) =
      bind-Keeps (append_wif client wif) _ (append_wif-Keeps wif) (λ _. append_wifs-Keeps keys)

  fetched-Keeps : (t : ℕ) (perm : Text) (a : Account) → Keeps (fetched client t perm a)
  unfolding fetched
  fetched-Keeps t perm a =
      bind-Keeps (lift (fetch_keys client 3 perm a t)) _ (lift-Keeps _) (λ (keys, signers).
        bind-Keeps (note_signers signers) _ (note_signers-Keeps signers) (λ _. pass-Keeps keys))

  fetched_if-Keeps :
      (c : Bool) (t : ℕ) (perm : Text) (a : Account) (keys : List (Text × ℕ))
      → Keeps (fetched_if client c t perm a keys)
  unfolding fetched_if
  fetched_if-Keeps true t perm a keys =
      bind-Keeps (fetched client t perm a) _ (fetched-Keeps t perm a) (λ more. pass-Keeps _)
  fetched_if-Keeps false t perm a keys = pass-Keeps keys

  add_signer-Keeps : (perm : Text) (a : Account) → Keeps (add_signer client perm a)
  unfolding add_signer
  add_signer-Keeps perm a = bind-Keeps (fetched client _ perm a) _ (fetched-Keeps _ perm a) (λ own.
      bind-Keeps (fetched_if client _ _ _ a own) _ (fetched_if-Keeps _ _ _ a own) (λ more.
        bind-Keeps (fetched_if client _ _ _ a more) _ (fetched_if-Keeps _ _ _ a more) (λ all.
          bind-Keeps (append_wifs client all) _ (append_wifs-Keeps all)
            (λ _. note_signers-Keeps _))))

  sign_by_wallet-Keeps : (perm : Text) (a : Account) → Keeps (sign_by_wallet client perm a)
  unfolding sign_by_wallet
  sign_by_wallet-Keeps perm a = if-Keeps (Client.locked client) _ _ (raise-Keeps _) (
      bind-Keeps self _ (λ b b' a' h. rw (moved h) (refl, refl))
        (λ b. if-Keeps _ _ _ (pass-Keeps tt) (add_signer-Keeps perm a)))

  -- The keys that sign do not change what is sent.
  pub append_signer-Keeps : (name perm : Text) → Keeps (append_signer client name perm)
  unfolding append_signer
  append_signer-Keeps name perm = if-Keeps _ _ _ (pass-Keeps tt) (
      if-Keeps _ _ _ (raise-Keeps _) (
        bind-Keeps (lift (Client.account client name)) _ (lift-Keeps _)
          (λ a. sign_by_wallet-Keeps perm a)))
