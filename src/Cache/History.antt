-- ===== src/Cache/History.antt =====
-- `ObjectCache.get` of src/nectar/blockchainobject.py after any steps, by the ideal cache.
use mathlib.Core.Path.{subst}
use hive_nectar.Prelude.{
  ℕ, ◌≤◌, ◌<◌, ◌≡◌, refl, ap, ◌∙◌, Bool, inl, inr, Bool-cases, Option-cases, Option, none, some,
  List, [], ltb, ltb→lt, arith,
}
use hive_nectar.Prelude.Bytes.{Text}
use hive_nectar.Cache.{Entry, ObjectCache, find_entry, contains, get}
use hive_nectar.Cache.Reads.{get_live, get_late, get_blank}
use hive_nectar.Cache.Live.{live}
use hive_nectar.Cache.Steps.{Step, run, history, IsOrdered, new_cache, ideal}
use hive_nectar.Cache.Tracks.{run-Tracks, new_cache-Tracks}

module _ {V : Type 0} where
  late : (now : ℕ) (e : Entry V) → live now (some e) ≡ none → e.expires ≤ now
  late now e h = elim (Bool-cases (ltb now e.expires)) [
    | inl b ↦ let bad : some e ≡ none = rw b at h in cc
    | inr b ↦ ground arith
  ]

  found_live :
      (now : ℕ) (o : Option (Entry V)) (e : Entry V)
      → live now o ≡ some e
      → (o ≡ some e) × (now < e.expires)
  found_live now none e h = cc
  found_live now (some d) e h = elim (Bool-cases (ltb now d.expires)) [
    | inl b ↦
        let same : some d ≡ some e = rw b at h in
        let same' : d ≡ e = cc in
        (same, subst (λ x. now < x.expires) same' (ltb→lt now d.expires b))
    | inr b ↦ let bad : none ≡ some e = rw b at h in cc
  ]

  get_absent :
      (first second third : ℕ) (k : Text) (default : Option V) (c : ObjectCache V)
      → live first (find_entry k c.entries) ≡ none
      → (get first second third k default c).1 ≡ default
  unfolding get contains
  get_absent first second third k default c h = elim (Option-cases (find_entry k c.entries)) [
    | inl e ↦ rw (e, contains) refl
    | inr (d, e) ↦ get_late k d c e first second third default (late first d (rw e at h))
  ]

  get_present :
      (first second third : ℕ) (k : Text) (default : Option V) (c : ObjectCache V) (e : Entry V)
      → find_entry k c.entries ≡ some e
      → first ≤ second
      → second ≤ third
      → third < e.expires
      → (get first second third k default c).1 ≡ ideal (some e) default
  get_present first second third k default c e f l m o = elim (Option-cases e.content) [
    | inl n ↦ rw n (get_blank k e c f first second third default n (omega arith) (omega arith))
    | inr (v, n) ↦ rw n (ap (λ r. r.1) (get_live k e c f first second third default v n l m o))
  ]

  -- A new cache after any steps in the order of time: if the clock does not go back in the reads
  -- that `get` makes next, and what was written last under the key does not expire between them,
  -- then `get` gives the value that was written last under the key if its time is not over, and
  -- else the default.
  pub get_refines :
      (steps : List (Step V)) (now lapse first second third : ℕ) (b : Bool) (k : Text)
      (default : Option V)
      → IsOrdered now steps first
      → first ≤ second
      → second ≤ third
      → live first (find_entry k (history lapse steps []))
        ≡ live third (find_entry k (history lapse steps []))
      → (get first second third k default (run steps (new_cache lapse b))).1
        ≡ ideal (live third (find_entry k (history lapse steps []))) default
  get_refines steps now lapse first second third b k default o l m s =
      let t = run-Tracks steps now first o (new_cache-Tracks now lapse b) in
      let log = history lapse steps [] in
      elim (Option-cases (live third (find_entry k log))) [
        | inl e ↦ rw e (get_absent first second third k default _ (t.same k ∙ s ∙ e))
        | inr (d, e) ↦
            let (there, soon) = found_live first _ d (t.same k ∙ s ∙ e) in
            let (noted', still) = found_live third _ d e in
            rw e (get_present first second third k default _ d there l m still)
      ]
