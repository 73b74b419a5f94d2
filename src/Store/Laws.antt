-- ===== src/Store/Laws.antt =====
-- What src/nectarstorage/interfaces.py gives back.
use hive_nectar.Prelude.{
  ◌≡◌, refl, inl, inr, Bool-cases, Option-cases, [], ◌∷◌, Option, none, some, bytes_eq,
  bytes_eq_refl, ok, err, key_error,
}
use hive_nectar.Prelude.Bytes.{Text}
use hive_nectar.Store.{
  Table, find, put, remove, remember_default, given_default, setdefault, set_item, get_item,
  contains, delete_item, get_or, get, pop,
}

module _ {V : Type 0} where
  find-put : (k : Text) (v : Option V) (t : Table V) → find k (put k v t) ≡ some v
  unfolding find put
  find-put k v [] = rw (bytes_eq_refl k) refl
  find-put k v ((j, w) ∷ t) = elim (Bool-cases (bytes_eq j k)) [
    | inl b ↦ rw (b, b) refl
    | inr b ↦ rw (b, b) (find-put k v t)
  ]

  find-remove : (k : Text) (t : Table V) → find k (remove k t) ≡ none
  unfolding find remove
  find-remove k [] = refl
  find-remove k ((j, w) ∷ t) = elim (Bool-cases (bytes_eq j k)) [
    | inl b ↦ rw b (find-remove k t)
    | inr b ↦ rw (b, b) (find-remove k t)
  ]

  -- What is written to a store is what both ways of reading give, whatever the defaults are.
  pub get-set_item :
      (k : Text) (v default : Option V) (defaults t : Table V)
      → (get_item k defaults (set_item k v t) ≡ ok v)
        × (get k default defaults (set_item k v t) ≡ v)
  unfolding get_item get set_item
  get-set_item k v default defaults t =
      (rw (find-put k v t, get_item) refl, rw (find-put k v t) refl)

  find-pop : (k : Text) (default : Option V) (t : Table V) → find k (pop k default t).0 ≡ none
  unfolding pop
  find-pop k default t = elim (Option-cases (find k t)) [
    | inl e ↦ rw (e, pop) e
    | inr (v, e) ↦ rw (e, pop) (find-remove k t)
  ]

  read_missing :
      (k : Text) (default : Option V) (t defaults : Table V)
      → find k t ≡ none
      → ((pop k default t).1 ≡ default)
        × (delete_item k t ≡ err key_error)
        × (get k default defaults t ≡ get_or (find k defaults) default)
  unfolding pop delete_item contains get
  read_missing k default t defaults e =
      (rw (e, pop) refl, rw (e, contains, delete_item) refl, rw e refl)

  -- After a key is popped, a second `pop` gives the default, `del` raises, and reading gives what the
  -- defaults have.
  pub pop-pop :
      (k : Text) (first second : Option V) (t : Table V) (defaults : Table V)
      → let t' = (pop k first t).0 in
        ((pop k second t').1 ≡ second)
        × (delete_item k t' ≡ err key_error)
        × (get k second defaults t' ≡ get_or (find k defaults) second)
  pop-pop k first second t defaults = read_missing k second _ defaults (find-pop k first t)

  -- A default that is set on one store is what every other store of the class without the key gives.
  get-setdefault :
      (k : Text) (v : V) (default : Option V) (defaults t other : Table V)
      → find k other ≡ none
      → get k default (setdefault k (some v) (defaults, t)).0.0 other ≡ some v
  unfolding get setdefault given_default remember_default
  get-setdefault k v default defaults t other e = rw (e, find-put k (some v) defaults) refl
