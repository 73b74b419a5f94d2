-- ===== src/Objects.antt =====
-- The constructors of src/nectarbase/objects.py: what the parts of an operation become on the wire.
-- Their arguments are Python values. Hashes, the curve and floating-point numbers are parameters.
pub mod Keys
pub mod Amounts
pub mod Auths
pub mod Shapes
use hive_nectar.Prelude.{
  ℕ, [], ◌∷◌, Bool, true, false, List, ◌==◌, if◌then◌else◌, length, Result, ok, err, ◌>>=◌, Error,
  type_error, value_error, general, bytes_eq, ◌&&◌,
}
use hive_nectar.Prelude.Int.{ℤ, pos, negsuc}
use hive_nectar.Prelude.Bytes.{Bytes, Text, codes}
use hive_nectar.Values.{
  Value, a_text, a_number, a_moment, a_flag, a_dict, Dict, get, get_or, has, has_truthy, truthy,
  iterate, member, int, traverse,
}
use hive_nectar.Wire.{
  Wire, uint8, int16, uint16, uint32, uint64, point_in_time, hex_string, hex_bytes, string, array,
  present, static_variant, graphene_object, unwritable, Items, end, item,
}
use Prim.Native.String.{String}

-- What the code calls that is not here: two hashes, the compression of a point of the curve
-- (`coincurve`), and `round(value_to_decimal(amount, precision) * 10**precision)`, which goes through
-- binary floating-point numbers.
pub record Outside : Type 0 where
  pub sha256 : Bytes → Bytes
  pub ripemd : Bytes → Bytes
  pub compress : Bytes → Result Bytes
  pub scale : Value → Value → Result ℤ

unfoldable chars : List Value → Result Text
chars [] = ok []
chars (a_text (c ∷ []) ∷ vs) = do cs ← chars vs; ok (c ∷ cs)
chars _ = err type_error

-- An object around what may raise when it is written.
abbrev pub written {ℓ} : {A : Type ℓ} → (A → Wire) → Result A → Wire
written make (ok a) = make a
written make (err raised) = unwritable raised

-- `String(value)`, `PointInTime(value)`, `HexString(value)` and `Bytes(value)` take any value, and
-- look at it when they are written.
unfoldable pub string_of : Value → Wire
unfolding chars
string_of (a_text s) = string s
string_of value = written string (iterate value >>= λ vs. chars vs)

unfoldable pub time_of : Value → Wire
time_of (a_moment n) = point_in_time n
time_of (a_text s) = unwritable value_error
time_of _ = unwritable type_error

unfoldable pub hex_of : Value → Wire
hex_of (a_text s) = hex_string s
hex_of _ = unwritable type_error

unfoldable pub raw_of : Value → Wire
raw_of (a_text s) = hex_bytes s
raw_of _ = unwritable type_error

-- The numbers apply `int` at once, and `Bool(bool(value))` the truth.
unfoldable pub number_of : (ℤ → Wire) → Value → Result Wire
number_of make value = do n ← int value; ok (make n)

unfoldable pub truth_of : Value → Wire
truth_of value = if truthy value then uint8 (pos 1) else uint8 (pos 0)

unfoldable pub to_items : List Wire → Items
to_items [] = end
to_items (w ∷ ws) = item w (to_items ws)

-- `Array([f(o) for o in value])`.
unfoldable pub array_of : (Value → Result Wire) → Value → Result Wire
array_of f value = do vs ← iterate value; ws ← traverse f vs; ok (array (to_items ws))

abbrev pub empty_array : Wire
empty_array = array end

-- One field of an object, made of the keyword arguments, and the fields in their order.
abbrev pub Field : Type 0
Field = Dict → Result Wire

unfoldable pub make_fields : List Field → Dict → Result Items
make_fields [] kwargs = ok end
make_fields (f ∷ fs) kwargs = do w ← f kwargs; ws ← make_fields fs kwargs; ok (item w ws)

-- `GrapheneObject(OrderedDict(fields))`.
unfoldable pub object : List Field → Dict → Result Wire
object fs kwargs = do ws ← make_fields fs kwargs; ok (graphene_object ws)

-- Fields that are made before the others: what they raise is raised first.
unfoldable pub after : List Field → Field → Field
after fs f kwargs = do _ ← make_fields fs kwargs; f kwargs

-- A class takes its fields from a dictionary.
abbrev pub from_dict : (Dict → Result Wire) → Value → Result Wire
from_dict make (a_dict d) = make d
from_dict make _ = err type_error

-- Fields that apply a constructor to `kwargs[key]`.
unfoldable pub field_at : (Value → Result Wire) → String → Field
field_at f key kwargs = do v ← get kwargs (codes key); f v

unfoldable pub text_at : String → Field
text_at = field_at (λ v. ok (string_of v))

unfoldable pub time_at : String → Field
time_at = field_at (λ v. ok (time_of v))

unfoldable pub truth_at : String → Field
truth_at = field_at (λ v. ok (truth_of v))

-- `Bool(kwargs[key])`, which is `Uint8`.
unfoldable pub bool_at : String → Field
bool_at = field_at (number_of uint8)

unfoldable pub int16_at : String → Field
int16_at = field_at (number_of int16)

unfoldable pub uint16_at : String → Field
uint16_at = field_at (number_of uint16)

unfoldable pub uint32_at : String → Field
uint32_at = field_at (number_of uint32)

unfoldable pub uint64_at : String → Field
uint64_at = field_at (number_of uint64)

unfoldable pub texts_at : String → Field
texts_at = field_at (array_of (λ v. ok (string_of v)))

unfoldable pub uint64s_at : String → Field
uint64s_at = field_at (array_of (number_of uint64))

unfoldable pub no_extensions : Field
no_extensions kwargs = ok empty_array

-- A prefix that is no text counts as an empty one.
unfoldable pub prefix_in : Dict → Text
prefix_in kwargs = elim (get_or kwargs (codes "prefix") (a_text (codes "STM"))) [
  | a_text s ↦ s
  | _ ↦ []
]

-- `Beneficiary` and `Beneficiaries`.
unfoldable pub beneficiary : Dict → Result Wire
beneficiary = object (text_at "account" ∷ int16_at "weight" ∷ [])

unfoldable pub beneficiaries : Dict → Result Wire
beneficiaries = object (field_at (array_of (from_dict beneficiary)) "beneficiaries" ∷ [])

-- `type_id, data = o`.
abbrev two : List Value → Result (Value × Value)
two (a ∷ b ∷ []) = ok (a, b)
two _ = err value_error

-- `type_id == n`.
abbrev pub is_id : ℕ → Value → Bool
is_id n (a_number (pos m)) = m == n
is_id n (a_flag true) = n == 1
is_id n (a_flag false) = n == 0
is_id n _ = false

abbrev is_text : String → Value → Bool
is_text name (a_text s) = bytes_eq s (codes name)
is_text name _ = false

-- The number and the data of an extension whose type is called `name` and has number `n`.
unfoldable pub variant_parts : String → ℕ → Value → Result (Value × Value)
variant_parts name n (a_dict d) =
    if has d (codes "type") && has d (codes "value")
    then (do
      type' ← get d (codes "type")
      data' ← get d (codes "value")
      ok (if is_text name type' then a_number (pos n) else a_number (negsuc 0), data'))
    else (iterate (a_dict d) >>= λ vs. two vs)
variant_parts name n o = do vs ← iterate o; two vs

unfoldable pub variant_of : String → ℕ → (Dict → Result Wire) → Value → Result Wire
variant_of name n make o = do
  (type_id, data') ← variant_parts name n o
  if is_id n type_id
      then (do w ← from_dict make data'; ok (static_variant (pos n) w))
      else err general

-- `CommentOptionExtensions`.
unfoldable pub comment_option_extension : Value → Result Wire
comment_option_extension = variant_of "comment_payout_beneficiaries" 0 beneficiaries

-- `UpdateProposalEndDate` and `UpdateProposalExtensions`.
unfoldable pub update_proposal_end_date : Dict → Result Wire
update_proposal_end_date = object (time_at "end_date" ∷ [])

unfoldable pub update_proposal_extension : Value → Result Wire
update_proposal_extension = variant_of "update_proposal_end_date" 1 update_proposal_end_date
