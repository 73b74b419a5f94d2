-- ===== src/Store.antt =====
-- src/nectarstorage/interfaces.py and src/nectarstorage/ram.py: a dictionary over default values. The
-- table `defaults` is an attribute of the class, which all its stores share, so it is an argument beside
-- the table of a store. A value may be Python's `None`.
mod Laws
mod Tests
use hive_nectar.Prelude.{
  ℕ, Bool, true, false, List, [], ◌∷◌, Option, none, some, if◌then◌else◌, bytes_eq, Result, ok, err,
  key_error, length,
}
use hive_nectar.Prelude.Bytes.{Text}

abbrev pub Table : Type 0 → Type 0
Table V = List (Text × Option V)

module _ {V : Type 0} where
  -- The `dict` underneath.
  unfoldable pub find : Text → Table V → Option (Option V)
  find k [] = none
  find k ((j, v) ∷ t) = let rest = find k t in if bytes_eq j k then some v else rest

  unfoldable pub put : Text → Option V → Table V → Table V
  put k v [] = (k, v) ∷ []
  put k v ((j, w) ∷ t) = let rest = put k v t in if bytes_eq j k then (j, v) ∷ t else (j, w) ∷ rest

  unfoldable pub remove : Text → Table V → Table V
  remove k [] = []
  remove k ((j, w) ∷ t) = let rest = remove k t in if bytes_eq j k then rest else (j, w) ∷ rest

  -- `dict.setdefault`.
  unfoldable pub dict_setdefault : Text → Option V → Table V → Table V × Option V
  dict_setdefault k value t = elim (find k t) [ none ↦ (put k value t, value) | some v ↦ (t, v) ]

  unfoldable pub remember_default : Text → Option V → Table V → Table V
  remember_default k none defaults = defaults
  remember_default k (some v) defaults = put k (some v) defaults

  -- A default that is there, when no value is given.
  unfoldable pub given_default : Option V → Option (Option V) → Option (Option V)
  given_default none found = found
  given_default (some v) found = none

  unfoldable pub setdefault : Text → Option V → Table V × Table V → (Table V × Table V) × Option V
  setdefault k value (defaults, t) = elim (given_default value (find k defaults)) [
    | some v ↦ ((defaults, t), v)
    | none ↦ let (t', v) = dict_setdefault k value t in ((remember_default k value defaults, t'), v)
  ]

  unfoldable pub set_item : Text → Option V → Table V → Table V
  set_item k v t = put k v t

  unfoldable pub get_item : Text → Table V → Table V → Result (Option V)
  get_item k defaults t = elim (find k t) [
    | some v ↦ ok v
    | none ↦ elim (find k defaults) [ some v ↦ ok v | none ↦ err key_error ]
  ]

  unfoldable pub contains : Text → Table V → Bool
  contains k t = elim (find k t) [ none ↦ false | some v ↦ true ]

  unfoldable pub delete_item : Text → Table V → Result (Table V)
  delete_item k t = if contains k t then ok (remove k t) else err key_error

  abbrev pub get_or : Option (Option V) → Option V → Option V
  get_or none default = default
  get_or (some v) default = v

  unfoldable pub get : Text → Option V → Table V → Table V → Option V
  get k default defaults t = get_or (find k t) (get_or (find k defaults) default)

  unfoldable pub pop : Text → Option V → Table V → Table V × Option V
  pop k default t = elim (find k t) [ none ↦ (t, default) | some v ↦ (remove k t, v) ]

  unfoldable pub clear : Table V → Table V
  clear t = []

  -- `InRamStore`: deleting a key that is missing is no error.
  unfoldable pub delete : Text → Table V → Table V
  delete k t = remove k t

  unfoldable pub wipe : Table V → Table V
  wipe t = clear t
