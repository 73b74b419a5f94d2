-- ===== src/Cache/Steps.antt =====
-- What is done to the cache of src/nectar/blockchainobject.py in the order of time, and the ideal cache of
-- the same steps, which keeps every write.
use hive_nectar.Prelude.{ℕ, ◌+◌, ◌*◌, ◌≤◌, Bool, Option, none, some, List, [], ◌∷◌}
use hive_nectar.Prelude.Bytes.{Text}
use hive_nectar.Cache.{Entry, ObjectCache, contains, clear_expired_items, set_item}

-- What is done to a cache, with the reads of the clock in their order.
pub data Step (V : Type 0) : Type 0 where
  write : (first second third : ℕ) → Text → V → Step V
  look : ℕ → Text → Step V
  clean : ℕ → Step V

module _ {V : Type 0} where
  unfoldable pub step : Step V → ObjectCache V → ObjectCache V
  step (write first second third k v) c = set_item first second third k v c
  step (look now k) c = (contains now k c).0
  step (clean now) c = clear_expired_items now c

  unfoldable pub run : List (Step V) → ObjectCache V → ObjectCache V
  run [] c = c
  run (s ∷ steps) c = run steps (step s c)

  -- The ideal cache: every write, the last one first.
  unfoldable pub noted : ℕ → Step V → List (Text × Entry V) → List (Text × Entry V)
  noted lapse (write first second third k v) log =
      (k, record { expires = first + lapse * 1000000; content = some v }) ∷ log
  noted lapse (look now k) log = log
  noted lapse (clean now) log = log

  unfoldable pub history : ℕ → List (Step V) → List (Text × Entry V) → List (Text × Entry V)
  history lapse [] log = log
  history lapse (s ∷ steps) log = history lapse steps (noted lapse s log)

  -- The end of the steps, if they begin at `now` or later and time goes forward.
  abbrev pub IsOrdered : ℕ → List (Step V) → ℕ → Type 0
  IsOrdered now [] end = now ≤ end
  IsOrdered now (write first second third k v ∷ steps) end =
      (now ≤ first) × (first ≤ second) × (second ≤ third) × IsOrdered third steps end
  IsOrdered now (look t k ∷ steps) end = (now ≤ t) × IsOrdered t steps end
  IsOrdered now (clean t ∷ steps) end = (now ≤ t) × IsOrdered t steps end

  -- A new cache.
  abbrev pub new_cache : ℕ → Bool → ObjectCache V
  new_cache lapse auto_clean = record {
    entries = [];
    default_expiration = lapse;
    auto_clean = auto_clean;
  }

  -- What `get` gives with an entry that the ideal cache has, or does not have, at its reads of the clock.
  abbrev pub ideal : Option (Entry V) → Option V → Option V
  ideal none default = default
  ideal (some e) default = elim e.content [ none ↦ default | some v ↦ some v ]
