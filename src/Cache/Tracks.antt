-- ===== src/Cache/Tracks.antt =====
-- The cache of src/nectar/blockchainobject.py has, of what is not expired, what the ideal cache has.
use mathlib.Core.Path.{subst}
use hive_nectar.Prelude.{
  ℕ, ◌+◌, ◌*◌, ◌≤◌, ◌≡◌, ◌≢◌, refl, sym, ap, ◌∙◌, Bool, true, false, inl, inr, Bool-cases,
  Option-cases, none, some, List, [], ◌∷◌, ltb, if◌then◌else◌, bytes_eq_refl,
}
use hive_nectar.Prelude.Bytes.{Text}
use hive_nectar.Cache.{
  Entry, ObjectCache, find_entry, put_entry, delete_entry, contains, clear_expired_items, set_item,
}
use hive_nectar.Cache.Entries.{
  bytes_eq_ne, find_entry-put_entry, find_entry-put_entry_ne, find_entry-delete_entry_ne,
}
use hive_nectar.Cache.Live.{
  live, live_later, IsUnique, same_key, put_entry-IsUnique, delete_entry-IsUnique,
  unexpired-IsUnique, live-unexpired,
}
use hive_nectar.Cache.Steps.{
  Step, write, look, clean, step, run, noted, history, IsOrdered, new_cache,
}

module _ {V : Type 0} where
  -- The cache agrees with the ideal one on every entry whose time is not over.
  pub record Tracks (now : ℕ) (c : ObjectCache V) (log : List (Text × Entry V)) (lapse : ℕ)
      : Type 0 where
    pub unique : IsUnique c.entries
    pub same : (k : Text) → live now (find_entry k c.entries) ≡ live now (find_entry k log)
    pub lasting : c.default_expiration ≡ lapse

  Tracks-later :
      (a b : ℕ) {c : ObjectCache V} {log : List (Text × Entry V)} {lapse : ℕ}
      → a ≤ b
      → Tracks a c log lapse
      → Tracks b c log lapse
  Tracks-later a b l t = record {
    unique = t.unique;
    same = λ k. live_later a b _ _ l (t.same k);
    lasting = t.lasting;
  }

  live_after_contains :
      (now : ℕ) (j k : Text) (c : ObjectCache V)
      → live now (find_entry j (contains now k c).0.entries) ≡ live now (find_entry j c.entries)
  unfolding contains
  live_after_contains now j k c = elim (Option-cases (find_entry k c.entries)) [
    | inl e ↦ rw (e, contains) refl
    | inr (d, e) ↦ elim (Bool-cases (ltb now d.expires)) [
      | inl l ↦ rw (e, l, contains) refl
      | inr l ↦ elim (same_key j k) [
        | inl p ↦
            rw
              (p, e, l, contains, find_entry-put_entry k (record d { content = none }) c.entries, l)
              refl
        | inr p ↦
            rw (e, l, contains)
              (ap (live now) (
                find_entry-put_entry_ne j k (record d { content = none }) c.entries
                  (λ q. p (sym q))))
      ]
    ]
  ]

  contains-IsUnique :
      (now : ℕ) (k : Text) (c : ObjectCache V)
      → IsUnique c.entries
      → IsUnique (contains now k c).0.entries
  unfolding contains
  contains-IsUnique now k c u = elim (Option-cases (find_entry k c.entries)) [
    | inl e ↦ rw (e, contains) u
    | inr (d, e) ↦ elim (Bool-cases (ltb now d.expires)) [
      | inl l ↦ rw (e, l, contains) u
      | inr l ↦ rw (e, l, contains) (put_entry-IsUnique k (record d { content = none }) c.entries u)
    ]
  ]

  contains-lasting :
      (now : ℕ) (k : Text) (c : ObjectCache V)
      → (contains now k c).0.default_expiration ≡ c.default_expiration
  unfolding contains
  contains-lasting now k c = elim (Option-cases (find_entry k c.entries)) [
    | inl e ↦ rw (e, contains) refl
    | inr (d, e) ↦ elim (Bool-cases (ltb now d.expires)) [
      | inl l ↦ rw (e, l, contains) refl
      | inr l ↦ rw (e, l, contains) refl
    ]
  ]

  find_first :
      (k : Text) (e : Entry V) (es : List (Text × Entry V)) → find_entry k ((k, e) ∷ es) ≡ some e
  unfolding find_entry
  find_first k e es = rw (bytes_eq_refl k) refl

  find_later :
      (j k : Text) (e : Entry V) (es : List (Text × Entry V))
      → k ≢ j
      → find_entry j ((k, e) ∷ es) ≡ find_entry j es
  unfolding find_entry
  find_later j k e es h = rw (bytes_eq_ne k j h) refl

  Tracks-contains :
      (now : ℕ) (k : Text) {c : ObjectCache V} {log : List (Text × Entry V)} {lapse : ℕ}
      → Tracks now c log lapse
      → Tracks now (contains now k c).0 log lapse
  Tracks-contains now k {c} t = record {
    unique = contains-IsUnique now k c t.unique;
    same = λ j. live_after_contains now j k c ∙ t.same j;
    lasting = contains-lasting now k c ∙ t.lasting;
  }

  Tracks-clean :
      (now : ℕ) {c : ObjectCache V} {log : List (Text × Entry V)} {lapse : ℕ}
      → Tracks now c log lapse
      → Tracks now (clear_expired_items now c) log lapse
  unfolding clear_expired_items
  Tracks-clean now {c} t = record {
    unique = unexpired-IsUnique now c.entries t.unique;
    same = λ k. live-unexpired now k c.entries t.unique ∙ t.same k;
    lasting = t.lasting;
  }

  Tracks-clean_if :
      (b : Bool) (now : ℕ) {c : ObjectCache V} {log : List (Text × Entry V)} {lapse : ℕ}
      → Tracks now c log lapse
      → Tracks now (if b then clear_expired_items now c else c) log lapse
  Tracks-clean_if true now t = Tracks-clean now t
  Tracks-clean_if false now t = t

  kept-IsUnique :
      (found : Bool) (k : Text) (es : List (Text × Entry V))
      → IsUnique es
      → IsUnique (if found then delete_entry k es else es)
  kept-IsUnique true k es u = delete_entry-IsUnique k es u
  kept-IsUnique false k es u = u

  find_kept :
      (found : Bool) (j k : Text) (es : List (Text × Entry V))
      → k ≢ j
      → find_entry j (if found then delete_entry k es else es) ≡ find_entry j es
  find_kept true j k es h = find_entry-delete_entry_ne j k es h
  find_kept false j k es h = refl

  -- A new entry in the cache and in the history.
  Tracks-put :
      (now : ℕ) (found : Bool) (k : Text) (e : Entry V) {c : ObjectCache V}
      {log : List (Text × Entry V)} {lapse : ℕ}
      → Tracks now c log lapse
      → Tracks now
          (record c {
            entries = put_entry k e (if found then delete_entry k c.entries else c.entries);
          })
          ((k, e) ∷ log)
          lapse
  Tracks-put now found k e {c} {log} t = record {
    unique = put_entry-IsUnique k e _ (kept-IsUnique found k c.entries t.unique);
    same = λ j. elim (same_key k j) [
      | inl p ↦ rw (← p) (ap (live now) (find_entry-put_entry k e _ ∙ sym (find_first k e log)))
      | inr p ↦
          ap (live now) (find_entry-put_entry_ne j k e _ p ∙ find_kept found j k c.entries p)
          ∙ t.same j
          ∙ ap (live now) (sym (find_later j k e log p))
    ];
    lasting = t.lasting;
  }

  Tracks-write :
      (first second third : ℕ) (k : Text) (v : V) {c : ObjectCache V} {log : List (Text × Entry V)}
      {lapse : ℕ}
      → first ≤ second
      → second ≤ third
      → Tracks first c log lapse
      → Tracks third
          (set_item first second third k v c)
          ((k, record { expires = first + lapse * 1000000; content = some v }) ∷ log)
          lapse
  unfolding set_item
  Tracks-write first second third k v {c = c} {log = log} {lapse = lapse} l m t =
      let looked = Tracks-contains second k (Tracks-later first second l t) in
      let fresh : Entry V = record {
        expires = first + c.default_expiration * 1000000;
        content = some v;
      } in
      let put = Tracks-put second (contains second k c).1 k fresh looked in
      let cleaned = Tracks-clean_if c.auto_clean third (Tracks-later second third m put) in
      subst
        (λ n.
          Tracks third (set_item first second third k v c)
            ((k, record { expires = first + n * 1000000; content = some v }) ∷ log) lapse)
        t.lasting cleaned

  pub run-Tracks :
      (steps : List (Step V)) (now end : ℕ) {c : ObjectCache V} {log : List (Text × Entry V)}
      {lapse : ℕ}
      → IsOrdered now steps end
      → Tracks now c log lapse
      → Tracks end (run steps c) (history lapse steps log) lapse
  unfolding run step history noted
  run-Tracks [] now end o t = Tracks-later now end o t
  run-Tracks (write first second third k v ∷ steps) now end (o, l, m, os) t =
      run-Tracks steps third end os
        (Tracks-write first second third k v l m (Tracks-later now first o t))
  run-Tracks (look at k ∷ steps) now end (o, os) t =
      run-Tracks steps at end os (Tracks-contains at k (Tracks-later now at o t))
  run-Tracks (clean at ∷ steps) now end (o, os) t =
      run-Tracks steps at end os (Tracks-clean at (Tracks-later now at o t))

  pub new_cache-Tracks : (now lapse : ℕ) (b : Bool) → Tracks now (new_cache lapse b) [] lapse
  unfolding find_entry
  new_cache-Tracks now lapse b = record { unique = tt; same = λ k. refl; lasting = refl }
