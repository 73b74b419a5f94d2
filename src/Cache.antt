-- ===== src/Cache.antt =====
-- `ObjectCache` of src/nectar/blockchainobject.py: a map whose entries expire. Every read of the clock
-- is an argument, in microseconds. The entries are those that `__setitem__` makes, and the default
-- expiration is not negative.
pub mod Entries
pub mod Reads
pub mod Writes
pub mod Live
pub mod History
pub mod Steps
pub mod Tracks
mod Tests
use hive_nectar.Prelude.{
  ℕ, ◌+◌, ◌*◌, Bool, true, false, List, [], ◌∷◌, ◌++◌, Option, none, some, ltb, if◌then◌else◌,
  bytes_eq,
}
use hive_nectar.Prelude.Bytes.{Text}

pub record Entry (V : Type 0) : Type 0 where
  pub expires : ℕ
  pub content : Option V

pub record ObjectCache (V : Type 0) : Type 0 where
  pub entries : List (Text × Entry V)
  pub default_expiration : ℕ
  pub auto_clean : Bool

module _ {V : Type 0} where
  -- The `dict` underneath: look up, write in place or at the end, and delete.
  unfoldable pub find_entry : Text → List (Text × Entry V) → Option (Entry V)
  find_entry k [] = none
  find_entry k ((j, e) ∷ es) = let rest = find_entry k es in if bytes_eq j k then some e else rest

  unfoldable pub put_entry : Text → Entry V → List (Text × Entry V) → List (Text × Entry V)
  put_entry k e [] = (k, e) ∷ []
  put_entry k e ((j, d) ∷ es) =
      let rest = put_entry k e es in if bytes_eq j k then (j, e) ∷ es else (j, d) ∷ rest

  unfoldable pub delete_entry : Text → List (Text × Entry V) → List (Text × Entry V)
  delete_entry k [] = []
  delete_entry k ((j, d) ∷ es) =
      let rest = delete_entry k es in if bytes_eq j k then rest else (j, d) ∷ rest

  -- `__contains__`: an entry that has expired loses its content.
  unfoldable pub contains : ℕ → Text → ObjectCache V → ObjectCache V × Bool
  contains now k c = elim (find_entry k c.entries) [
    | none ↦ (c, false)
    | some e ↦
        if ltb now e.expires
        then (c, true)
        else (record c { entries = put_entry k (record e { content = none }) c.entries }, false)
  ]

  abbrev pub content_of : Option (Entry V) → Option V
  content_of none = none
  content_of (some e) = e.content

  -- `__getitem__`.
  unfoldable pub get_item : ℕ → Text → ObjectCache V → ObjectCache V × Option V
  get_item now k c =
      let (c', found) = contains now k c in
      (c', if found then content_of (find_entry k c'.entries) else none)

  -- The last lines of `get`: the value is read once more.
  unfoldable pub get_again :
      ℕ → Text → Option V → ObjectCache V × Option V → ObjectCache V × Option V
  get_again third k default (c, none) = (c, default)
  get_again third k default (c, some v) = get_item third k c

  -- `get`, which reads the clock three times.
  unfoldable pub get : ℕ → ℕ → ℕ → Text → Option V → ObjectCache V → ObjectCache V × Option V
  get first second third k default c =
      let (c', found) = contains first k c in
      if found then get_again third k default (get_item second k c') else (c', default)

  unfoldable pub unexpired : ℕ → List (Text × Entry V) → List (Text × Entry V)
  unexpired now [] = []
  unexpired now ((k, e) ∷ es) =
      let rest = unexpired now es in if ltb now e.expires then (k, e) ∷ rest else rest

  unfoldable pub clear_expired_items : ℕ → ObjectCache V → ObjectCache V
  clear_expired_items now c = record c { entries = unexpired now c.entries }

  -- `__setitem__`, which reads the clock for the new entry, for the old one, and to clean.
  unfoldable pub set_item : ℕ → ℕ → ℕ → Text → V → ObjectCache V → ObjectCache V
  set_item first second third k v c =
      let fresh : Entry V = record {
        expires = first + c.default_expiration * 1000000;
        content = some v;
      } in
      let (c', found) = contains second k c in
      let kept = if found then delete_entry k c'.entries else c'.entries in
      let written = record c' { entries = put_entry k fresh kept } in
      if c.auto_clean then clear_expired_items third written else written
