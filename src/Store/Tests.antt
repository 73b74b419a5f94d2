-- ===== src/Store/Tests.antt =====
-- A run of the stores of src/nectarstorage/interfaces.py.
use hive_nectar.Prelude.{ℕ, ◌≡◌, refl, [], ◌∷◌, some, ok, bytes_eq}
use hive_nectar.Prelude.Bytes.{codes}
use hive_nectar.Store.{Table, find, get_item}

abbrev table : Table ℕ
table = (codes "a", some 1) ∷ []

abbrev defaults : Table ℕ
defaults = (codes "b", some 2) ∷ []

default_runs : get_item (codes "b") defaults table ≡ ok (some 2)
unfolding get_item find bytes_eq
default_runs = refl
