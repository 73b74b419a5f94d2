-- ===== src/Objects/Shapes.antt =====
-- The shapes of what the constructors of src/nectarbase/objects.py make.
pub mod Parts
pub mod Fields
use hive_nectar.Prelude.{
  ℕ, [], ◌∷◌, Bool, true, false, List, Option, none, some, if◌then◌else◌, ◌≡◌, Result, ok, err,
  ◌>>=◌, >>=-eq-ok, Error,
}
use hive_nectar.Prelude.Int.{ℤ, pos}
use hive_nectar.Values.{
  Value, null, a_text, a_number, a_moment, a_flag, a_list, a_dict, Dict, traverse, get, int,
  iterate, truthy, has,
}
use hive_nectar.Wire.{Wire, uint8, array, string, graphene_object, unwritable, Items, end, item}
use hive_nectar.Wire.Format.{Format, text, time, u8, list, fields, Formats, done, field, maybe, hex}
use hive_nectar.Wire.Shape.{
  Shaped, unwritable_shape, u8_shape, time_shape, text_shape, hex_shape, list_shape, fields_shape,
  ShapedAll, no_items, an_item, ShapedFields, no_fields, a_field,
}
use hive_nectar.Objects.{
  Field, object, after, make_fields, written, string_of, time_of, hex_of, truth_of, number_of,
  array_of, to_items, field_at, chars,
}
use hive_nectar.Operations.Layouts.{row, layout}
use Prim.Native.String.{String}

-- What the result holds, if any, has the shape.
abbrev pub Yields : Format → Result Wire → Type 0
Yields f r = (w : Wire) → r ≡ ok w → Shaped f w

pub ok-Yields : {f : Format} {x : Wire} → Shaped f x → Yields f (ok x)
ok-Yields {f} {x} s w h = let same : w ≡ x = cc in rw same s

pub err-Yields : {f : Format} {raised : Error} → Yields f (err raised)
err-Yields w h = cc

pub bind-Yields {ℓ} :
    {A : Type ℓ} {f : Format} {m : Result A} {next : A → Result Wire}
    → ((a : A) → m ≡ ok a → Yields f (next a))
    → Yields f (m >>= next)
bind-Yields {m = m} {next = next} g w h = let (a, e, h') = >>=-eq-ok m next h in g a e w h'

pub if-Yields :
    {f : Format} (b : Bool) {x y : Result Wire}
    → Yields f x
    → Yields f y
    → Yields f (if b then x else y)
if-Yields true p q = p
if-Yields false p q = q

pub written-Shaped {ℓ} :
    {A : Type ℓ} {f : Format} (make : A → Wire) (r : Result A)
    → ((a : A) → Shaped f (make a))
    → Shaped f (written make r)
written-Shaped make (ok a) s = s a
written-Shaped {f = f} make (err raised) s = unwritable_shape f raised

pub string_of-Shaped : (v : Value) → Shaped text (string_of v)
unfolding string_of
string_of-Shaped (a_text s) = text_shape s
string_of-Shaped null = written-Shaped string _ text_shape
string_of-Shaped (a_number n) = written-Shaped string _ text_shape
string_of-Shaped (a_moment n) = written-Shaped string _ text_shape
string_of-Shaped (a_flag b) = written-Shaped string _ text_shape
string_of-Shaped (a_list vs) = written-Shaped string _ text_shape
string_of-Shaped (a_dict d) = written-Shaped string _ text_shape

pub time_of-Shaped : (v : Value) → Shaped time (time_of v)
unfolding time_of
time_of-Shaped (a_moment n) = time_shape n
time_of-Shaped (a_text s) = unwritable_shape _ _
time_of-Shaped null = unwritable_shape _ _
time_of-Shaped (a_number n) = unwritable_shape _ _
time_of-Shaped (a_flag b) = unwritable_shape _ _
time_of-Shaped (a_list vs) = unwritable_shape _ _
time_of-Shaped (a_dict d) = unwritable_shape _ _

pub hex_of-Shaped : (v : Value) → Shaped hex (hex_of v)
unfolding hex_of
hex_of-Shaped (a_text s) = hex_shape s
hex_of-Shaped null = unwritable_shape _ _
hex_of-Shaped (a_moment n) = unwritable_shape _ _
hex_of-Shaped (a_number n) = unwritable_shape _ _
hex_of-Shaped (a_flag b) = unwritable_shape _ _
hex_of-Shaped (a_list vs) = unwritable_shape _ _
hex_of-Shaped (a_dict d) = unwritable_shape _ _

pub truth_of-Shaped : (v : Value) → Shaped u8 (truth_of v)
unfolding truth_of
truth_of-Shaped v =
    elim (truthy v) as (λ b. Shaped u8 (if b then uint8 (pos 1) else uint8 (pos 0))) [
      | true ↦ u8_shape _
      | false ↦ u8_shape _
    ]

pub number_of-Yields :
    {f : Format} (make : ℤ → Wire) (v : Value)
    → ((n : ℤ) → Shaped f (make n))
    → Yields f (number_of make v)
unfolding number_of
number_of-Yields make v s = bind-Yields (λ n e. ok-Yields (s n))

traverse-ShapedAll :
    {f : Format} (make : Value → Result Wire) (vs : List Value) {ws : List Wire}
    → ((v : Value) → Yields f (make v))
    → traverse make vs ≡ ok ws
    → ShapedAll f (to_items ws)
unfolding traverse to_items
traverse-ShapedAll {f} make [] {ws} s h = let same : ws ≡ [] = cc in rw same (no_items f)
traverse-ShapedAll make (v ∷ vs) {ws} s h =
    let (w, e, h') = >>=-eq-ok (make v) _ h in
    let (rest, e', h'') = >>=-eq-ok (traverse make vs) _ h' in
    let same : ws ≡ w ∷ rest = cc in rw same (an_item (s v w e) (traverse-ShapedAll make vs s e'))

pub array_of-Yields :
    {f : Format} (make : Value → Result Wire) (v : Value)
    → ((v : Value) → Yields f (make v))
    → Yields (list f) (array_of make v)
unfolding array_of
array_of-Yields make v s =
    bind-Yields
      (λ vs e. bind-Yields (λ ws e'. ok-Yields (list_shape (traverse-ShapedAll make vs s e'))))

-- A field makes objects of a shape out of the keyword arguments of a kind.
module _ (P : Dict → Type 0) where
  abbrev pub Makes : Format → Field → Type 0
  Makes f g = (kwargs : Dict) → P kwargs → Yields f (g kwargs)

  abbrev pub MakesAll : List Format → List Field → Type 0
  MakesAll [] [] = Unit
  MakesAll (f ∷ fs) (g ∷ gs) = Makes f g × MakesAll fs gs
  MakesAll [] (g ∷ gs) = ⊥
  MakesAll (f ∷ fs) [] = ⊥

  make_fields-Shaped :
      (fs : List Format) (gs : List Field) (kwargs : Dict) {ws : Items}
      → MakesAll fs gs
      → P kwargs
      → make_fields gs kwargs ≡ ok ws
      → ShapedFields (row fs) ws
  unfolding make_fields row
  make_fields-Shaped [] [] kwargs {ws} m p h = let same : ws ≡ end = cc in rw same no_fields
  make_fields-Shaped (f ∷ fs) (g ∷ gs) kwargs {ws} (m, ms) p h =
      let (w, e, h') = >>=-eq-ok (g kwargs) _ h in
      let (rest, e', h'') = >>=-eq-ok (make_fields gs kwargs) _ h' in
      let same : ws ≡ item w rest = cc in
      rw same (a_field (m kwargs p w e) (make_fields-Shaped fs gs kwargs ms p e'))
  make_fields-Shaped [] (g ∷ gs) kwargs m p h = absurd m
  make_fields-Shaped (f ∷ fs) [] kwargs m p h = absurd m

  pub object-Makes :
      (fs : List Format) (gs : List Field) → MakesAll fs gs → Makes (layout fs) (object gs)
  unfolding object
  object-Makes fs gs m kwargs p =
      bind-Yields (λ ws e. ok-Yields (fields_shape (make_fields-Shaped fs gs kwargs m p e)))

  pub after-Makes :
      {f : Format} (before : List Field) (g : Field) → Makes f g → Makes f (after before g)
  unfolding after
  after-Makes before g m kwargs p = bind-Yields (λ ws e. m kwargs p)

  pub field_at-Makes :
      {f : Format} (make : Value → Result Wire) (key : String)
      → ((v : Value) → Yields f (make v))
      → Makes f (field_at make key)
  unfolding field_at
  field_at-Makes make key m kwargs p = bind-Yields (λ v e. m v)
