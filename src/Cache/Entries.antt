-- ===== src/Cache/Entries.antt =====
-- The association list under the cache of src/nectar/blockchainobject.py.
use mathlib.Core.Path.{subst}
use hive_nectar.Prelude.{
  ℕ, ◌<◌, ◌≡◌, ◌≢◌, refl, sym, ap, ◌∙◌, Bool, true, false, inl, inr, ◌⊎◌, List, [], ◌∷◌, Option,
  some, ltb, ltb→lt, if◌then◌else◌, bytes_eq, bytes_eq_refl, bytes_eq→eq, Bool-cases, All,
}
use hive_nectar.Prelude.Bytes.{Text}
use hive_nectar.Cache.{Entry, find_entry, put_entry, delete_entry, unexpired}

pub bytes_eq_ne : (s t : Text) → s ≢ t → bytes_eq s t ≡ false
bytes_eq_ne s t h = elim (Bool-cases (bytes_eq s t)) [
  | inl e ↦ absurd (h (bytes_eq→eq s t e))
  | inr e ↦ e
]

module _ {V : Type 0} where
  pub find_entry-put_entry :
      (k : Text) (e : Entry V) (es : List (Text × Entry V))
      → find_entry k (put_entry k e es) ≡ some e
  unfolding find_entry put_entry
  find_entry-put_entry k e [] = rw (bytes_eq_refl k) refl
  find_entry-put_entry k e ((j, d) ∷ es) = elim (Bool-cases (bytes_eq j k)) [
    | inl b ↦ rw (b, b) refl
    | inr b ↦ rw (b, b) (find_entry-put_entry k e es)
  ]

  pub find_entry-put_entry_ne :
      (j k : Text) (e : Entry V) (es : List (Text × Entry V))
      → k ≢ j
      → find_entry j (put_entry k e es) ≡ find_entry j es
  unfolding find_entry put_entry
  find_entry-put_entry_ne j k e [] h = rw (bytes_eq_ne k j h) refl
  find_entry-put_entry_ne j k e ((i, d) ∷ es) h = elim (Bool-cases (bytes_eq i k)) [
    | inl b ↦
        let other : i ≢ j = λ p. h (sym (bytes_eq→eq i k b) ∙ p) in
        rw (b, bytes_eq_ne i j other) refl
    | inr b ↦ elim (Bool-cases (bytes_eq i j)) [
      | inl c ↦ rw (b, c) refl
      | inr c ↦ rw (b, c) (find_entry-put_entry_ne j k e es h)
    ]
  ]

  pub find_entry-delete_entry_ne :
      (j k : Text) (es : List (Text × Entry V))
      → k ≢ j
      → find_entry j (delete_entry k es) ≡ find_entry j es
  unfolding find_entry delete_entry
  find_entry-delete_entry_ne j k [] h = refl
  find_entry-delete_entry_ne j k ((i, d) ∷ es) h = elim (Bool-cases (bytes_eq i k)) [
    | inl b ↦
        let other : i ≢ j = λ p. h (sym (bytes_eq→eq i k b) ∙ p) in
        rw (b, bytes_eq_ne i j other) (find_entry-delete_entry_ne j k es h)
    | inr b ↦ elim (Bool-cases (bytes_eq i j)) [
      | inl c ↦ rw (b, c) refl
      | inr c ↦ rw (b, c) (find_entry-delete_entry_ne j k es h)
    ]
  ]

  if_found :
      (b : Bool) (d : Entry V) (rest : Option (Entry V)) (e : Entry V)
      → (if b then some d else rest) ≡ some e
      → ((b ≡ true) × (d ≡ e)) ⊎ ((b ≡ false) × (rest ≡ some e))
  if_found true d rest e f = inl (refl, cc)
  if_found false d rest e f = inr (refl, f)

  pub find_entry-unexpired :
      (now : ℕ) (k : Text) (e : Entry V) (es : List (Text × Entry V))
      → find_entry k es ≡ some e
      → ltb now e.expires ≡ true
      → find_entry k (unexpired now es) ≡ some e
  unfolding find_entry unexpired
  find_entry-unexpired now k e [] f l = cc
  find_entry-unexpired now k e ((j, d) ∷ es) f l =
      elim (if_found (bytes_eq j k) d (find_entry k es) e f) [
        | inl (b, same) ↦
            let live : ltb now d.expires ≡ true =
              subst (λ x. ltb now x.expires ≡ true) (sym same) l in
            rw (live, b) (ap some same)
        | inr (b, later) ↦
            let there = find_entry-unexpired now k e es later l in
            elim (Bool-cases (ltb now d.expires)) [
              | inl live ↦ rw (live, b) there
              | inr gone ↦ rw (gone) there
            ]
      ]

  pub unexpired-All :
      (now : ℕ) (es : List (Text × Entry V)) → All (λ x. now < x.1.expires) (unexpired now es)
  unfolding unexpired
  unexpired-All now [] = tt
  unexpired-All now ((k, e) ∷ es) = elim (Bool-cases (ltb now e.expires)) [
    | inl b ↦ rw (b) (ltb→lt now e.expires b, unexpired-All now es)
    | inr b ↦ rw (b) (unexpired-All now es)
  ]
