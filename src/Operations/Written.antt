-- ===== src/Operations/Written.antt =====
-- Every operation that src/nectarbase/operations.py makes goes over the wire in its layout.
use hive_nectar.Prelude.{
  ℕ, ◌≡◌, >>=-eq-ok, Option, none, some, ok, demand, Error, value_error, not_implemented,
}
use hive_nectar.Prelude.Int.{ℤ, pos, negsuc}
use hive_nectar.Prelude.Bytes.{Bytes, Text, codes}
use hive_nectar.Values.{
  Value, null, a_text, a_number, a_moment, a_flag, a_list, a_dict, no_values, value_and, Dict, get,
  lookup,
}
use hive_nectar.Wire.{Wire, to_bytes}
use hive_nectar.Wire.Format.{Format, read}
use hive_nectar.Wire.Shape.{Shaped, IsSized, op_shape}
use hive_nectar.Wire.Finding.{Finds}
use hive_nectar.Wire.Parsing.{read-written}
use hive_nectar.Objects.{Outside, Field, from_dict}
use hive_nectar.Objects.Shapes.{Yields, Makes, ok-Yields, err-Yields, bind-Yields}
use hive_nectar.Operations.Names.{ops, operation_id, operation_name}
use hive_nectar.Operations.Numbering.{operation_name-operation_id}
use hive_nectar.Operations.Layouts.{layout_of, any_operation}
use hive_nectar.Operations.Classes.{
  class_name, get_class, build, build_named, build_numbered, build_pair, named_class, short_name,
  text_in, operation_of,
}
use hive_nectar.Operations.Shapes.{IsPlain, lookup_found}
use hive_nectar.Operations.Entries.{all_Entries, entry_of}

-- The data of an operation, given as a value, as what a dictionary may hold, and inside an operation.
abbrev pub IsPlainData : Value → Type 0
IsPlainData (a_dict d) = IsPlain d
IsPlainData _ = Unit

abbrev pub IsPlainFound : Option Value → Type 0
IsPlainFound none = Unit
IsPlainFound (some v) = IsPlainData v

abbrev pub IsPlainOperation : Value → Type 0
IsPlainOperation (a_list (value_and id (value_and v no_values))) = IsPlainData v
IsPlainOperation (a_dict d) = IsPlainFound (lookup d (codes "value"))
IsPlainOperation _ = Unit

demanded {ℓ} :
    {A : Type ℓ} (raised : Error) (o : Option A) {a : A} → demand raised o ≡ ok a → o ≡ some a
demanded raised none h = cc
demanded raised (some b) h = cc

module _ (outside : Outside) where
  from_dict-Yields :
      (f : Format) (make : Field) (v : Value)
      → IsPlainData v
      → Makes IsPlain f make
      → Yields f (from_dict make v)
  from_dict-Yields f make (a_dict d) p m = m d p
  from_dict-Yields f make null p m = err-Yields
  from_dict-Yields f make (a_text s) p m = err-Yields
  from_dict-Yields f make (a_number n) p m = err-Yields
  from_dict-Yields f make (a_moment n) p m = err-Yields
  from_dict-Yields f make (a_flag b) p m = err-Yields
  from_dict-Yields f make (a_list vs) p m = err-Yields

  build-Yields :
      (i : ℕ) (name : Text) (v : Value)
      → operation_id name ≡ some i
      → IsPlainData v
      → Yields any_operation (build outside i name v)
  unfolding build operation_id
  build-Yields i name v e p w h =
      let (make, e', h1) = >>=-eq-ok (get_class outside (class_name name)) _ h in
      let (x, e'', h2) = >>=-eq-ok (from_dict make v) _ h1 in
      let made : Makes IsPlain (layout_of i) make =
        rw e' at (entry_of outside 0 ops name i (all_Entries outside) e) in
      ok-Yields (op_shape layout_of i (from_dict-Yields (layout_of i) make v p made x e'')) w h2

  named-Yields :
      (name : Text) (v : Value) → IsPlainData v → Yields any_operation (build_named outside name v)
  unfolding build_named
  named-Yields name v p w h =
      let (i, e, h') = >>=-eq-ok (demand value_error (operation_id name)) _ h in
      build-Yields i name v (demanded value_error (operation_id name) e) p w h'

  numbered-Yields :
      (z : ℤ) (v : Value) → IsPlainData v → Yields any_operation (build_numbered outside z v)
  unfolding build_numbered
  numbered-Yields (negsuc n) v p w h = cc
  numbered-Yields (pos n) v p w h =
      let (name, e, h') = >>=-eq-ok (demand not_implemented (operation_name (pos n))) _ h in
      build-Yields n name v
        ((operation_name-operation_id n name).0
          (demanded not_implemented (operation_name (pos n)) e))
        p w h'

  dict-Yields :
      (d : Dict)
      → IsPlainFound (lookup d (codes "value"))
      → Yields any_operation (operation_of outside (a_dict d))
  unfolding operation_of
  dict-Yields d p w h =
      let (type', _, h1) = >>=-eq-ok (get d (codes "type")) _ h in
      let (name, _, h2) = >>=-eq-ok (text_in type') _ h1 in
      let (_, _, h3) = >>=-eq-ok (named_class outside (short_name name)) _ h2 in
      let (v, e, h4) = >>=-eq-ok (get d (codes "value")) _ h3 in
      named-Yields (short_name name) v (rw (lookup_found d (codes "value") e) at p) w h4

  pair-Yields : (id v : Value) → IsPlainData v → Yields any_operation (build_pair outside id v)
  unfolding build_pair
  pair-Yields (a_number n) v p = numbered-Yields n v p
  pair-Yields (a_flag b) v p = bind-Yields (λ n e. numbered-Yields n v p)
  pair-Yields (a_text name) v p = named-Yields name v p
  pair-Yields (a_list vs) v p = err-Yields
  pair-Yields (a_dict d) v p = err-Yields
  pair-Yields null v p = err-Yields
  pair-Yields (a_moment n) v p = err-Yields

  -- If `Operation` makes an operation out of a name or number and data, or out of a dictionary,
  -- whose memo is a text and whose witness properties name an interest rate where it has any, then
  -- the operation has the layout that belongs to its number: the fields, in their order and of
  -- their types, whatever the values.
  pub operation_of-Shaped :
      (op : Value) (w : Wire)
      → IsPlainOperation op
      → operation_of outside op ≡ ok w
      → Shaped any_operation w
  unfolding operation_of
  operation_of-Shaped (a_dict d) w p h = dict-Yields d p w h
  operation_of-Shaped (a_list (value_and id (value_and v no_values))) w p h = pair-Yields id v p w h
  operation_of-Shaped (a_list no_values) w p h = cc
  operation_of-Shaped (a_list (value_and id no_values)) w p h = cc
  operation_of-Shaped (a_list (value_and id (value_and v (value_and x vs)))) w p h = cc
  operation_of-Shaped null w p h = cc
  operation_of-Shaped (a_text s) w p h = cc
  operation_of-Shaped (a_number n) w p h = cc
  operation_of-Shaped (a_moment n) w p h = cc
  operation_of-Shaped (a_flag b) w p h = cc

  -- If an operation is made of a name or number and data, or of a dictionary, whose memo is a text
  -- and whose witness properties name an interest rate where it has any, its symbols have at most
  -- seven characters on the wire and its keys 33 bytes, and `bytes` succeeds, then a reader that
  -- knows the layouts by their numbers and nothing of the classes reads an operation off the bytes,
  -- and leaves whatever follows them.
  pub read-operation_of :
      (op : Value) (w : Wire) (b : Bytes)
      → IsPlainOperation op
      → operation_of outside op ≡ ok w
      → IsSized w
      → to_bytes w ≡ ok b
      → Finds (read any_operation) b
  read-operation_of op w b p h z e =
      read-written any_operation w b (operation_of-Shaped op w p h) z e
