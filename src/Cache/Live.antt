-- ===== src/Cache/Live.antt =====
-- Entries whose time is not over, and keys that stand once, in the list under the cache of
-- src/nectar/blockchainobject.py.
use hive_nectar.Prelude.{
  ℕ, ◌≤◌, ◌≡◌, ◌≢◌, refl, sym, ap, ◌∙◌, false, inl, inr, ◌⊎◌, Bool-cases, Option, none, some, List,
  [], ◌∷◌, ltb, if◌then◌else◌, bytes_eq, bytes_eq_refl, bytes_eq→eq, arith,
}
use hive_nectar.Prelude.Bytes.{Text}
use hive_nectar.Cache.{Entry, find_entry, put_entry, delete_entry, unexpired}
use hive_nectar.Cache.Entries.{find_entry-put_entry_ne}

pub same_key : (j k : Text) → (j ≡ k) ⊎ (j ≢ k)
same_key j k = elim (Bool-cases (bytes_eq j k)) [
  | inl e ↦ inl (bytes_eq→eq j k e)
  | inr e ↦ inr (λ p. let both : bytes_eq k k ≡ false = rw p at e in cc (bytes_eq_refl k))
]

module _ {V : Type 0} where
  -- An entry, if its time is not over.
  abbrev pub live : ℕ → Option (Entry V) → Option (Entry V)
  live now none = none
  live now (some e) = if ltb now e.expires then some e else none

  pub live-none : (now : ℕ) (e : Entry V) → ltb now e.expires ≡ false → live now (some e) ≡ none
  live-none now e h = rw h refl

  live-live : (a b : ℕ) (o : Option (Entry V)) → a ≤ b → live b (live a o) ≡ live b o
  live-live a b none l = refl
  live-live a b (some e) l = elim (Bool-cases (ltb a e.expires)) [
    | inl h ↦ rw h refl
    | inr h ↦ let late : ltb b e.expires ≡ false = ground arith in rw (h, late) refl
  ]

  pub live_later :
      (a b : ℕ) (o p : Option (Entry V)) → a ≤ b → live a o ≡ live a p → live b o ≡ live b p
  live_later a b o p l h = sym (live-live a b o l) ∙ ap (live b) h ∙ live-live a b p l

  -- No key stands twice.
  abbrev pub IsUnique : List (Text × Entry V) → Type 0
  IsUnique [] = Unit
  IsUnique ((k, e) ∷ es) = (find_entry k es ≡ none) × IsUnique es

  pub put_entry-IsUnique :
      (k : Text) (e : Entry V) (es : List (Text × Entry V))
      → IsUnique es
      → IsUnique (put_entry k e es)
  unfolding put_entry find_entry
  put_entry-IsUnique k e [] u = (refl, tt)
  put_entry-IsUnique k e ((j, d) ∷ es) (n, u) = elim (Bool-cases (bytes_eq j k)) [
    | inl b ↦ rw b (n, u)
    | inr b ↦
        let other : k ≢ j =
          λ p. let bad : bytes_eq j j ≡ false = rw p at b in cc (bytes_eq_refl j) in
        rw b (find_entry-put_entry_ne j k e es other ∙ n, put_entry-IsUnique k e es u)
  ]

  find_none-delete_entry :
      (j k : Text) (es : List (Text × Entry V))
      → find_entry j es ≡ none
      → find_entry j (delete_entry k es) ≡ none
  unfolding find_entry delete_entry
  find_none-delete_entry j k [] h = refl
  find_none-delete_entry j k ((i, d) ∷ es) h = elim (Bool-cases (bytes_eq i j)) [
    | inl b ↦ let bad : some d ≡ none = rw b at h in cc
    | inr b ↦
        let rest : find_entry j es ≡ none = rw b at h in
        let there = find_none-delete_entry j k es rest in
        elim (Bool-cases (bytes_eq i k)) [ inl c ↦ rw c there | inr c ↦ rw (c, b) there ]
  ]

  pub delete_entry-IsUnique :
      (k : Text) (es : List (Text × Entry V)) → IsUnique es → IsUnique (delete_entry k es)
  unfolding delete_entry
  delete_entry-IsUnique k [] u = tt
  delete_entry-IsUnique k ((j, d) ∷ es) (n, u) = elim (Bool-cases (bytes_eq j k)) [
    | inl b ↦ rw b (delete_entry-IsUnique k es u)
    | inr b ↦ rw b (find_none-delete_entry j k es n, delete_entry-IsUnique k es u)
  ]

  find_none-unexpired :
      (now : ℕ) (j : Text) (es : List (Text × Entry V))
      → find_entry j es ≡ none
      → find_entry j (unexpired now es) ≡ none
  unfolding find_entry unexpired
  find_none-unexpired now j [] h = refl
  find_none-unexpired now j ((i, d) ∷ es) h = elim (Bool-cases (bytes_eq i j)) [
    | inl b ↦ let bad : some d ≡ none = rw b at h in cc
    | inr b ↦
        let rest : find_entry j es ≡ none = rw b at h in
        let there = find_none-unexpired now j es rest in
        elim (Bool-cases (ltb now d.expires)) [ inl c ↦ rw (c, b) there | inr c ↦ rw c there ]
  ]

  pub unexpired-IsUnique :
      (now : ℕ) (es : List (Text × Entry V)) → IsUnique es → IsUnique (unexpired now es)
  unfolding unexpired
  unexpired-IsUnique now [] u = tt
  unexpired-IsUnique now ((j, d) ∷ es) (n, u) = elim (Bool-cases (ltb now d.expires)) [
    | inl b ↦ rw b (find_none-unexpired now j es n, unexpired-IsUnique now es u)
    | inr b ↦ rw b (unexpired-IsUnique now es u)
  ]

  -- Cleaning takes away only what its time has taken.
  pub live-unexpired :
      (now : ℕ) (k : Text) (es : List (Text × Entry V))
      → IsUnique es
      → live now (find_entry k (unexpired now es)) ≡ live now (find_entry k es)
  unfolding find_entry unexpired
  live-unexpired now k [] u = refl
  live-unexpired now k ((j, d) ∷ es) (n, u) = elim (Bool-cases (bytes_eq j k)) [
    | inl b ↦ elim (Bool-cases (ltb now d.expires)) [
      | inl c ↦ rw (c, b) refl
      | inr c ↦
          let gone : find_entry k (unexpired now es) ≡ none =
            rw (bytes_eq→eq j k b) at (find_none-unexpired now j es n) in
          rw (c, b, gone, c) refl
    ]
    | inr b ↦ elim (Bool-cases (ltb now d.expires)) [
      | inl c ↦ rw (c, b) (live-unexpired now k es u)
      | inr c ↦ rw (c, b) (live-unexpired now k es u)
    ]
  ]
