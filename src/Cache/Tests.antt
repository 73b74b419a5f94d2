-- ===== src/Cache/Tests.antt =====
-- Runs of `ObjectCache` of src/nectar/blockchainobject.py, and its theorems at concrete inputs.
use hive_nectar.Prelude.{ℕ, ◌≡◌, ◌≢◌, refl, arith, true, List, [], ◌∷◌, none, some, bytes_eq}
use hive_nectar.Prelude.Bytes.{codes}
use hive_nectar.Cache.{
  Entry, ObjectCache, find_entry, put_entry, delete_entry, contains, get_item, get_again, get,
  unexpired, clear_expired_items, set_item,
}
use hive_nectar.Cache.Steps.{Step, write, look, clean, run, history, noted, new_cache, ideal}
use hive_nectar.Cache.Live.{live}
use hive_nectar.Cache.History.{get_refines}
use hive_nectar.Cache.Writes.{get-set_item, set_item_kept}

abbrev old : Entry ℕ
old = record { expires = 500; content = some 7 }

abbrev cache : ObjectCache ℕ
cache = record { entries = (codes "a", old) ∷ []; default_expiration = 10; auto_clean = true }

cache_at : find_entry (codes "a") cache.entries ≡ some old
unfolding find_entry bytes_eq
cache_at = refl

write_runs :
    (get 700 701 702 (codes "b") none (set_item 600 601 602 (codes "b") 8 cache)).1 ≡ some 8
unfolding get get_again get_item contains set_item clear_expired_items unexpired find_entry
    put_entry delete_entry bytes_eq
write_runs = refl

get-set_item_example :
    (get 700 701 702 (codes "a") none (set_item 600 601 602 (codes "a") 8 cache)).1 ≡ some 8
get-set_item_example =
    get-set_item 600 601 602 (codes "a") 8 cache 700 701 702 none (omega arith) (omega arith)
      (omega arith) (omega arith)

blank_other : [] ≢ codes "a"
blank_other e = cc

set_item_kept_example : find_entry (codes "a") (set_item 400 401 402 [] 8 cache).entries ≡ some old
set_item_kept_example =
    set_item_kept 400 401 402 (codes "a") [] 8 cache old blank_other cache_at (omega arith)

abbrev steps : List (Step ℕ)
steps = write 1 2 3 (codes "a") 7 ∷ look 4 (codes "b") ∷ write 5 5 6 (codes "a") 9 ∷ clean 8 ∷ []

both_live :
    live 10 (find_entry (codes "a") (history 1 steps []))
    ≡ live 12 (find_entry (codes "a") (history 1 steps []))
unfolding history noted find_entry bytes_eq
both_live = refl

last_live :
    live 12 (find_entry (codes "a") (history 1 steps []))
    ≡ some (record { expires = 1000005; content = some 9 })
unfolding history noted find_entry bytes_eq
last_live = refl

get_refines_example :
    (get 10 11 12 (codes "a") none (run steps (new_cache 1 true))).1
    ≡ ideal (live 12 (find_entry (codes "a") (history 1 steps []))) none
get_refines_example =
    get_refines steps 0 1 10 11 12 true (codes "a") none
      (
        omega arith,
        omega arith,
        omega arith,
        (omega arith, (omega arith, omega arith, omega arith, (omega arith, omega arith))),
      )
      (omega arith) (omega arith) both_live
