-- ===== src/Operations/Guards.antt =====
-- What the classes of src/nectarbase/operations.py refuse.
use hive_nectar.Prelude.{
  ℕ, ◌≤◌, ◌≡◌, inl, inr, Bool-cases, true, false, [], ◌∷◌, Option, none, some, ltb, arith, Result,
  if◌then◌else◌, ok, err, ◌>>=◌, >>=-eq-ok, demand, general, unbound_local_error,
}
use hive_nectar.Prelude.Bytes.{codes}
use hive_nectar.Values.{Value, Dict, get, len, lookup, has_truthy, truthy}
use hive_nectar.Wire.{Wire}
use hive_nectar.Objects.{Field, object, make_fields}
use hive_nectar.Operations.Posts.{custom_json, json_text, json_field}

-- There is something to post, under a name of at most 32 characters.
abbrev pub HasPayload : Dict → Type 0
HasPayload kwargs =
    (has_truthy kwargs (codes "json") ≡ true)
    × (n : ℕ) × ((get kwargs (codes "id") >>= λ id. len id) ≡ ok n)
    × (n ≤ 32)

text_found :
    (o : Option Value) {v : Value}
    → (json_text o >>= λ js. demand unbound_local_error js) ≡ ok v
    → elim o [ none ↦ false | some x ↦ truthy x ] ≡ true
unfolding json_text
text_found none h = cc
text_found (some x) h = elim (Bool-cases (truthy x)) [
  | inl t ↦ t
  | inr t ↦ let bad : err unbound_local_error ≡ ok _ = rw t at h in cc bad
]

posted_text :
    (kwargs : Dict) {w : Wire} → json_field kwargs ≡ ok w → has_truthy kwargs (codes "json") ≡ true
unfolding json_field has_truthy
posted_text kwargs h =
    let (js, e, h1) = >>=-eq-ok (json_text (lookup kwargs (codes "json"))) _ h in
    let (v, e', _) = >>=-eq-ok (demand unbound_local_error js) _ h1 in
    let chain : (json_text (lookup kwargs (codes "json")) >>= λ js. demand unbound_local_error js)
        ≡ ok v =
      rw e e' in
    text_found (lookup kwargs (codes "json")) chain

fourth_field :
    (f g h k : Field) (kwargs : Dict) {w : Wire}
    → object (f ∷ g ∷ h ∷ k ∷ []) kwargs ≡ ok w
    → (x : Wire) × (k kwargs ≡ ok x)
unfolding object make_fields
fourth_field f g h k kwargs e =
    let (ws, e0, _) = >>=-eq-ok (make_fields (f ∷ g ∷ h ∷ k ∷ []) kwargs) _ e in
    let (a, _, e1) = >>=-eq-ok (f kwargs) _ e0 in
    let (rest, e2, _) = >>=-eq-ok (make_fields (g ∷ h ∷ k ∷ []) kwargs) _ e1 in
    let (b, _, e3) = >>=-eq-ok (g kwargs) _ e2 in
    let (rest', e4, _) = >>=-eq-ok (make_fields (h ∷ k ∷ []) kwargs) _ e3 in
    let (c, _, e5) = >>=-eq-ok (h kwargs) _ e4 in
    let (rest'', e6, _) = >>=-eq-ok (make_fields (k ∷ []) kwargs) _ e5 in
    let (d, e7, _) = >>=-eq-ok (k kwargs) _ e6 in (d, e7)

within :
    (n : ℕ) {r : Result Wire} {w : Wire}
    → (if ltb 32 n then err general else r) ≡ ok w
    → (n ≤ 32) × (r ≡ ok w)
within n {r} {w} h = elim (Bool-cases (ltb 32 n)) [
  | inl s ↦ let bad : err general ≡ ok w = rw s at h in cc bad
  | inr s ↦ let good : r ≡ ok w = rw s at h in (ground arith, good)
]

-- `Custom_json` makes an operation only if it is given JSON that is not empty and an id of at most
-- 32 characters.
pub custom_json-HasPayload :
    (kwargs : Dict) (w : Wire) → custom_json kwargs ≡ ok w → HasPayload kwargs
unfolding custom_json
custom_json-HasPayload kwargs w h =
    let (_, _, h1) = >>=-eq-ok (json_text (lookup kwargs (codes "json"))) _ h in
    let (id, e, h2) = >>=-eq-ok (get kwargs (codes "id")) _ h1 in
    let (n, e', h3) = >>=-eq-ok (len id) _ h2 in
    let (short, made) = within n h3 in
    let (x, found) = fourth_field _ _ _ _ kwargs made in
    let counted : (get kwargs (codes "id") >>= λ id. len id) ≡ ok n = rw e e' in
    (posted_text kwargs found, n, counted, short)
