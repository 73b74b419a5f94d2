-- ===== src/Cache/Reads.antt =====
-- Reading the cache of src/nectar/blockchainobject.py while time passes.
use hive_nectar.Prelude.{
  ℕ, ◌≤◌, ◌<◌, ◌≡◌, refl, true, false, Option, none, some, ltb, lt→ltb, arith,
}
use hive_nectar.Prelude.Bytes.{Text}
use hive_nectar.Cache.{
  Entry, ObjectCache, find_entry, put_entry, contains, get_item, get_again, get,
}

module _ {V : Type 0} (k : Text) (e : Entry V) (c : ObjectCache V)
    (at : find_entry k c.entries ≡ some e) where
  -- The cache in which the entry has lost its content.
  emptied : ObjectCache V
  emptied = record c { entries = put_entry k (record e { content = none }) c.entries }

  contains_live : (now : ℕ) → now < e.expires → contains now k c ≡ (c, true)
  unfolding contains
  contains_live now l = rw (at, lt→ltb now e.expires l, contains) refl

  contains_late : (now : ℕ) → e.expires ≤ now → contains now k c ≡ (emptied, false)
  unfolding contains emptied
  contains_late now l =
      let late : ltb now e.expires ≡ false = ground arith in rw (at, late, contains) refl

  get_item_live : (now : ℕ) → now < e.expires → get_item now k c ≡ (c, e.content)
  unfolding get_item
  get_item_live now l = rw (contains_live now l, at) refl

  get_item_late : (now : ℕ) → e.expires ≤ now → get_item now k c ≡ (emptied, none)
  unfolding get_item
  get_item_late now l = rw (contains_late now l) refl

  -- A value whose time is not over when it is read the last time is what `get` returns.
  pub get_live :
      (first second third : ℕ) (default : Option V) (v : V)
      → e.content ≡ some v
      → first ≤ second
      → second ≤ third
      → third < e.expires
      → get first second third k default c ≡ (c, some v)
  unfolding get get_again
  get_live first second third default v ev a b l =
      rw
        (
          contains_live first (omega arith),
          get_item_live second (omega arith),
          ev,
          get_item_live third l,
          ev,
        )
        refl

  -- Once its time is over, `get` returns the default.
  pub get_late :
      (first second third : ℕ) (default : Option V)
      → e.expires ≤ first
      → (get first second third k default c).1 ≡ default
  unfolding get
  get_late first second third default l = rw (contains_late first l) refl

  -- An entry without content is as good as none.
  pub get_blank :
      (first second third : ℕ) (default : Option V)
      → e.content ≡ none
      → first < e.expires
      → second < e.expires
      → (get first second third k default c).1 ≡ default
  unfolding get get_again
  get_blank first second third default n a b =
      rw (contains_live first a, get_item_live second b, n) refl

  -- If the time of an entry is over between the last two reads of the clock, `get` returns nothing,
  -- and not the default.
  get_between :
      (first second third : ℕ) (default : Option V) (v : V)
      → e.content ≡ some v
      → first ≤ second
      → second < e.expires
      → e.expires ≤ third
      → (get first second third k default c).1 ≡ none
  unfolding get get_again
  get_between first second third default v ev a b l =
      rw (contains_live first (omega arith), get_item_live second b, ev, get_item_late third l) refl
