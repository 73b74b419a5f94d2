-- ===== src/Cache/Writes.antt =====
-- What a write to the cache of src/nectar/blockchainobject.py does to later reads.
use hive_nectar.Prelude.{
  ℕ, ◌+◌, ◌*◌, ◌≤◌, ◌<◌, ◌≡◌, ◌≢◌, refl, ap, ◌∙◌, Bool, true, false, inl, inr, Bool-cases,
  Option-cases, Option, none, some, ltb, lt→ltb, if◌then◌else◌, All, List,
}
use hive_nectar.Prelude.Bytes.{Text}
use hive_nectar.Cache.{
  Entry, ObjectCache, find_entry, delete_entry, contains, get, clear_expired_items, set_item,
}
use hive_nectar.Cache.Entries.{
  find_entry-put_entry, find_entry-put_entry_ne, find_entry-delete_entry_ne, find_entry-unexpired,
  unexpired-All,
}
use hive_nectar.Cache.Reads.{get_live}

module _ {V : Type 0} where
  abbrev fresh : ℕ → V → ObjectCache V → Entry V
  fresh first v c = record { expires = first + c.default_expiration * 1000000; content = some v }

  -- Looking for a key does not change the entries of other keys.
  contains_kept :
      (now : ℕ) (j k : Text) (c : ObjectCache V)
      → k ≢ j
      → find_entry j (contains now k c).0.entries ≡ find_entry j c.entries
  unfolding contains
  contains_kept now j k c h = elim (Option-cases (find_entry k c.entries)) [
    | inl e ↦ rw (e, contains) refl
    | inr (d, e) ↦ elim (Bool-cases (ltb now d.expires)) [
      | inl l ↦ rw (e, l, contains) refl
      | inr l ↦
          rw (e, l, contains)
            (find_entry-put_entry_ne j k (record d { content = none }) c.entries h)
    ]
  ]

  cleaned :
      (clean : Bool) (now : ℕ) (c : ObjectCache V) (j : Text) (e : Entry V)
      → find_entry j c.entries ≡ some e
      → now < e.expires
      → find_entry j (if clean then clear_expired_items now c else c).entries ≡ some e
  unfolding clear_expired_items
  cleaned true now c j e f l = find_entry-unexpired now j e c.entries f (lt→ltb now e.expires l)
  cleaned false now c j e f l = f

  deleted :
      (found : Bool) (j k : Text) (es : List (Text × Entry V))
      → k ≢ j
      → find_entry j (if found then delete_entry k es else es) ≡ find_entry j es
  deleted true j k es h = find_entry-delete_entry_ne j k es h
  deleted false j k es h = refl

  set_item_found :
      (first second third : ℕ) (k : Text) (v : V) (c : ObjectCache V)
      → third < first + c.default_expiration * 1000000
      → find_entry k (set_item first second third k v c).entries ≡ some (fresh first v c)
  unfolding set_item
  set_item_found first second third k v c l =
      cleaned c.auto_clean third _ k (fresh first v c) (find_entry-put_entry k (fresh first v c) _)
        l

  -- A value is read back from the cache until its time is over, whatever was in the cache before,
  -- if the cleaning that follows the write ends before that time.
  pub get-set_item :
      (first second third : ℕ) (k : Text) (v : V) (c : ObjectCache V) (a b d : ℕ)
      (default : Option V)
      → third < first + c.default_expiration * 1000000
      → a ≤ b
      → b ≤ d
      → d < first + c.default_expiration * 1000000
      → (get a b d k default (set_item first second third k v c)).1 ≡ some v
  get-set_item first second third k v c a b d default l m n o =
      ap (λ r. r.1)
        (get_live k (fresh first v c) (set_item first second third k v c)
          (set_item_found first second third k v c l) a b d default v refl m n o)

  -- A write does not touch the entry of another key whose time is not over.
  pub set_item_kept :
      (first second third : ℕ) (j k : Text) (v : V) (c : ObjectCache V) (e : Entry V)
      → k ≢ j
      → find_entry j c.entries ≡ some e
      → third < e.expires
      → find_entry j (set_item first second third k v c).entries ≡ some e
  unfolding set_item
  set_item_kept first second third j k v c e h f l =
      let (c', found) = contains second k c in
      cleaned c.auto_clean third _ j e
        (find_entry-put_entry_ne j k (fresh first v c) _ h
          ∙ deleted found j k c'.entries h
          ∙ contains_kept second j k c h
          ∙ f)
        l

  -- Cleaning leaves only entries whose time is not over, and every such entry.
  clear_expired_items_lem :
      (now : ℕ) (k : Text) (e : Entry V) (c : ObjectCache V)
      → find_entry k c.entries ≡ some e
      → now < e.expires
      → All (λ x. now < x.1.expires) (clear_expired_items now c).entries
        × (find_entry k (clear_expired_items now c).entries ≡ some e)
  unfolding clear_expired_items
  clear_expired_items_lem now k e c f l = (
    unexpired-All now c.entries,
    find_entry-unexpired now k e c.entries f (lt→ltb now e.expires l),
  )
