-- ===== src/Objects/Shapes/Parts.antt =====
-- The shapes of amounts, keys and permissions.
use hive_nectar.Prelude.{
  [], ◌∷◌, List, ◌≡◌, Result, ok, err, >>=-eq-ok, ◌&&◌, demand, general, value_error,
}
use hive_nectar.Prelude.Int.{ℤ, pos}
use hive_nectar.Prelude.Bytes.{Text, codes, unhexlify}
use hive_nectar.Values.{
  Value, null, a_text, a_number, a_moment, a_flag, a_list, a_dict, Dict, Values, traverse, get,
  iterate, has, element, member,
}
use hive_nectar.Values.Json.{json_dumps}
use hive_nectar.Wire.{Wire, amount, public_key, map as wire_map, uint16}
use hive_nectar.Wire.Format.{Format, text, dict, asset, key, u16}
use hive_nectar.Wire.Shape.{
  Shaped, ShapedPairs, no_pairs, a_pair, dict_shape, asset_shape, key_shape, unwritable_shape,
  u16_shape,
}
use hive_nectar.Objects.{Outside, number_of, string_of}
use hive_nectar.Objects.Amounts.{
  amount_of, amount_of_parts, amount_of_dict, amount_of_list, amount_of_nai, amount_of_asset,
  amount_object, amount_from, find_symbol, find_precision, assets_of, symbol_of,
}
use hive_nectar.Objects.Keys.{public_key_of}
use hive_nectar.Objects.Auths.{
  auth_maps, to_pairs, account_auth, key_auth, sorted_by, key_text, account_name,
}
use hive_nectar.Objects.Shapes.{
  Yields, ok-Yields, err-Yields, bind-Yields, if-Yields, written-Shaped, string_of-Shaped,
  number_of-Yields,
}

amount_from-Shaped : (n p : Result ℤ) (symbol : Text) → Shaped asset (amount_from n p symbol)
unfolding amount_from
amount_from-Shaped (err raised) p symbol = unwritable_shape _ _
amount_from-Shaped (ok n) p symbol =
    written-Shaped (λ p. amount n p symbol) p (λ p. asset_shape n p symbol)

amount_object-Shaped :
    (value precision : Value) (symbol : Text) → Shaped asset (amount_object value precision symbol)
unfolding amount_object
amount_object-Shaped value precision symbol = amount_from-Shaped _ _ symbol

module _ (outside : Outside) where
  amount_of_parts-Yields :
      (prefix : Text) (parts : List Text) → Yields asset (amount_of_parts outside prefix parts)
  unfolding amount_of_parts
  amount_of_parts-Yields prefix (number' ∷ symbol ∷ []) w h =
      let (p, _, h1) = >>=-eq-ok (demand general (find_precision symbol (assets_of prefix))) _ h in
      let (n, _, h2) = >>=-eq-ok (Outside.scale outside (a_text number') (a_number (pos p))) _ h1 in
      ok-Yields (asset_shape n (pos p) symbol) w h2
  amount_of_parts-Yields prefix [] w h = cc
  amount_of_parts-Yields prefix (a ∷ []) w h = cc
  amount_of_parts-Yields prefix (a ∷ b ∷ c ∷ parts) w h = cc

  amount_of_nai-Yields : (prefix : Text) (d : Dict) → Yields asset (amount_of_nai outside prefix d)
  unfolding amount_of_nai
  amount_of_nai-Yields prefix d w h =
      let (nai, _, h1) = >>=-eq-ok (get d (codes "nai")) _ h in
      let (symbol, _, h2) =
        >>=-eq-ok (demand value_error (find_symbol nai (assets_of prefix))) _ h1 in
      let (value, _, h3) = >>=-eq-ok (get d (codes "amount")) _ h2 in
      let (precision, _, h4) = >>=-eq-ok (get d (codes "precision")) _ h3 in
      let (_, _, h5) = >>=-eq-ok (json_dumps (a_dict d)) _ h4 in
      ok-Yields (amount_object-Shaped value precision symbol) w h5

  amount_of_asset-Yields : (d : Dict) → Yields asset (amount_of_asset outside d)
  unfolding amount_of_asset
  amount_of_asset-Yields d w h =
      let (value, _, h1) = >>=-eq-ok (get d (codes "amount")) _ h in
      let (a, _, h2) = >>=-eq-ok (get d (codes "asset")) _ h1 in
      let (precision, _, h3) = >>=-eq-ok (member a (codes "precision")) _ h2 in
      let (symbol, _, h4) = >>=-eq-ok (symbol_of a) _ h3 in
      let (n, _, h5) = >>=-eq-ok (Outside.scale outside value precision) _ h4 in
      let (_, _, h6) = >>=-eq-ok (json_dumps (a_dict d)) _ h5 in
      ok-Yields (amount_object-Shaped (a_number n) precision symbol) w h6

  amount_of_dict-Yields :
      (prefix : Text) (d : Dict) → Yields asset (amount_of_dict outside prefix d)
  unfolding amount_of_dict
  amount_of_dict-Yields prefix d = if-Yields (has d (codes "nai")) (amount_of_nai-Yields prefix d) (
      if-Yields (has d (codes "amount") && has d (codes "asset")) (amount_of_asset-Yields d)
        err-Yields)

  amount_of_list-Yields :
      (prefix : Text) (vs : Values) → Yields asset (amount_of_list outside prefix vs)
  unfolding amount_of_list
  amount_of_list-Yields prefix vs w h =
      let (value, _, h1) = >>=-eq-ok (element (a_list vs) 0) _ h in
      let (a, _, h2) = >>=-eq-ok (element (a_list vs) 2) _ h1 in
      let (precision, _, h3) = >>=-eq-ok (element (a_list vs) 1) _ h2 in
      let (symbol, _, h4) =
        >>=-eq-ok (demand value_error (find_symbol a (assets_of prefix))) _ h3 in
      ok-Yields (amount_object-Shaped value precision symbol) w h4

  pub amount_of-Yields : (prefix : Text) (v : Value) → Yields asset (amount_of outside prefix v)
  unfolding amount_of
  amount_of-Yields prefix (a_text s) = amount_of_parts-Yields prefix _
  amount_of-Yields prefix (a_list vs) = amount_of_list-Yields prefix vs
  amount_of-Yields prefix (a_dict d) = amount_of_dict-Yields prefix d
  amount_of-Yields prefix null = err-Yields
  amount_of-Yields prefix (a_number n) = err-Yields
  amount_of-Yields prefix (a_moment n) = err-Yields
  amount_of-Yields prefix (a_flag b) = err-Yields

  pub public_key_of-Yields :
      (prefix : Text) (v : Value) → Yields key (public_key_of outside prefix v)
  unfolding public_key_of
  public_key_of-Yields prefix v =
      bind-Yields (λ d e. ok-Yields (written-Shaped public_key (unhexlify d) key_shape))

to_pairs-ShapedPairs :
    {f g : Format} (make : Value → Result (Wire × Wire)) (vs : List Value) {ps : List (Wire × Wire)}
    → ((v : Value) (p : Wire × Wire) → make v ≡ ok p → Shaped f p.0 × Shaped g p.1)
    → traverse make vs ≡ ok ps
    → ShapedPairs f g (to_pairs ps)
unfolding traverse to_pairs
to_pairs-ShapedPairs {f} {g} make [] {ps} s h = let same : ps ≡ [] = cc in rw same (no_pairs f g)
to_pairs-ShapedPairs make (v ∷ vs) {ps} s h =
    let (p, e, h') = >>=-eq-ok (make v) _ h in
    let (rest, e', h'') = >>=-eq-ok (traverse make vs) _ h' in
    let same : ps ≡ p ∷ rest = cc in
    rw same (a_pair (s v p e).0 (s v p e).1 (to_pairs-ShapedPairs make vs s e'))

account_auth-Shaped :
    (v : Value) (p : Wire × Wire) → account_auth v ≡ ok p → Shaped text p.0 × Shaped u16 p.1
unfolding account_auth
account_auth-Shaped v p h =
    let (name, e, h1) = >>=-eq-ok (element v 0) _ h in
    let (weight, e', h2) = >>=-eq-ok (element v 1) _ h1 in
    let (w, e'', h3) = >>=-eq-ok (number_of uint16 weight) _ h2 in
    let same : p ≡ (string_of name, w) = cc in
    rw same (string_of-Shaped name, number_of-Yields uint16 weight u16_shape w e'')

module _ (outside : Outside) where
  key_auth-Shaped :
      (prefix : Text) (v : Value) (p : Wire × Wire)
      → key_auth outside prefix v ≡ ok p
      → Shaped key p.0 × Shaped u16 p.1
  unfolding key_auth
  key_auth-Shaped prefix v p h =
      let (k, e, h1) = >>=-eq-ok (element v 0) _ h in
      let (w, e', h2) = >>=-eq-ok (public_key_of outside prefix k) _ h1 in
      let (weight, e'', h3) = >>=-eq-ok (element v 1) _ h2 in
      let (n, e''', h4) = >>=-eq-ok (number_of uint16 weight) _ h3 in
      let same : p ≡ (w, n) = cc in
      rw same (
        public_key_of-Yields outside prefix k w e',
        number_of-Yields uint16 weight u16_shape n e''',
      )

  pub auth_maps-Shaped :
      (prefix : Text) (d : Dict) (p : Wire × Wire)
      → auth_maps outside prefix d ≡ ok p
      → Shaped (dict text u16) p.0 × Shaped (dict key u16) p.1
  unfolding auth_maps
  auth_maps-Shaped prefix d p h =
      let (given, _, h1) = >>=-eq-ok (get d (codes "key_auths")) _ h in
      let (keys', _, h2) = >>=-eq-ok (iterate given) _ h1 in
      let (keys, _, h3) = >>=-eq-ok (sorted_by (key_text outside prefix) keys') _ h2 in
      let (given', _, h4) = >>=-eq-ok (get d (codes "account_auths")) _ h3 in
      let (accounts', _, h5) = >>=-eq-ok (iterate given') _ h4 in
      let (accounts, _, h6) = >>=-eq-ok (sorted_by account_name accounts') _ h5 in
      let (account_pairs, e, h7) = >>=-eq-ok (traverse account_auth accounts) _ h6 in
      let (key_pairs, e', h8) = >>=-eq-ok (traverse (key_auth outside prefix) keys) _ h7 in
      let same : p ≡ (wire_map (to_pairs account_pairs), wire_map (to_pairs key_pairs)) = cc in
      rw same (
        dict_shape (to_pairs-ShapedPairs account_auth accounts account_auth-Shaped e),
        dict_shape
            (to_pairs-ShapedPairs (key_auth outside prefix) keys (key_auth-Shaped prefix) e'),
      )
