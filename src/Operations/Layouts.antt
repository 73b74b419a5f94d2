-- ===== src/Operations/Layouts.antt =====
-- The layouts in which operations go over the wire, by their numbers, written without the classes that
-- make them. Operations that nothing makes have the empty layout.
use hive_nectar.Prelude.{ℕ, [], ◌∷◌, List, none, some, get_elem?}
use hive_nectar.Wire.Format.{
  Format, u8, i16, u16, u32, u64, time, text, hex, asset, key, nothing, list, maybe, dict, variant,
  op, fields, Formats, done, field,
}

unfoldable pub row : List Format → Formats
row [] = done
row (f ∷ fs) = field f (row fs)

abbrev pub layout : List Format → Format
layout fs = fields (row fs)

abbrev pub authority : Format
authority = layout (u32 ∷ dict text u16 ∷ dict key u16 ∷ [])

abbrev pub rate : Format
rate = layout (asset ∷ asset ∷ [])

abbrev pub chain_properties : Format
chain_properties = layout (asset ∷ u32 ∷ u16 ∷ [])

abbrev pub no_extensions : Format
no_extensions = list nothing

-- An extension is a variant of which one number is used.
abbrev pub only : ℕ → Format → ℕ → Format
only n f m = f

abbrev pub beneficiary_list : Format
beneficiary_list = layout (list (layout (text ∷ i16 ∷ [])) ∷ [])

abbrev pub layouts : List Format
layouts =
    layout (text ∷ text ∷ text ∷ i16 ∷ [])
    ∷ layout (text ∷ text ∷ text ∷ text ∷ text ∷ text ∷ text ∷ [])
    ∷ layout (text ∷ text ∷ asset ∷ text ∷ [])
    ∷ layout (text ∷ text ∷ asset ∷ [])
    ∷ layout (text ∷ asset ∷ [])
    ∷ layout (text ∷ u32 ∷ asset ∷ asset ∷ u8 ∷ time ∷ [])
    ∷ layout (text ∷ u32 ∷ [])
    ∷ layout (text ∷ rate ∷ [])
    ∷ layout (text ∷ u32 ∷ asset ∷ [])
    ∷ layout (asset ∷ text ∷ text ∷ authority ∷ authority ∷ authority ∷ key ∷ text ∷ [])
    ∷ layout (text ∷ maybe authority ∷ maybe authority ∷ maybe authority ∷ key ∷ text ∷ [])
    ∷ layout (text ∷ text ∷ key ∷ chain_properties ∷ asset ∷ [])
    ∷ layout (text ∷ text ∷ u8 ∷ [])
    ∷ layout (text ∷ text ∷ [])
    ∷ nothing
    ∷ layout (list text ∷ u16 ∷ text ∷ [])
    ∷ nothing
    ∷ layout (text ∷ text ∷ [])
    ∷ layout (list text ∷ list text ∷ text ∷ text ∷ [])
    ∷ layout (text ∷ text ∷ asset ∷ u16 ∷ u8 ∷ u8 ∷ list (variant (only 0 beneficiary_list)) ∷ [])
    ∷ layout (text ∷ text ∷ u16 ∷ u8 ∷ [])
    ∷ layout (text ∷ u32 ∷ asset ∷ u8 ∷ rate ∷ time ∷ [])
    ∷ layout (text ∷ asset ∷ no_extensions ∷ [])
    ∷ layout (text ∷ text ∷ authority ∷ authority ∷ authority ∷ key ∷ text ∷ no_extensions ∷ [])
    ∷ layout (text ∷ text ∷ authority ∷ no_extensions ∷ [])
    ∷ layout (text ∷ authority ∷ authority ∷ no_extensions ∷ [])
    ∷ layout (text ∷ text ∷ no_extensions ∷ [])
    ∷ layout (text ∷ text ∷ text ∷ u32 ∷ asset ∷ asset ∷ asset ∷ time ∷ time ∷ text ∷ [])
    ∷ layout (text ∷ text ∷ text ∷ u32 ∷ [])
    ∷ layout (text ∷ text ∷ text ∷ u32 ∷ asset ∷ asset ∷ [])
    ∷ nothing
    ∷ layout (text ∷ text ∷ text ∷ text ∷ u32 ∷ u8 ∷ [])
    ∷ layout (text ∷ text ∷ asset ∷ text ∷ [])
    ∷ layout (text ∷ u32 ∷ text ∷ asset ∷ text ∷ [])
    ∷ layout (text ∷ u32 ∷ [])
    ∷ layout (u16 ∷ text ∷ [])
    ∷ layout (text ∷ u8 ∷ [])
    ∷ nothing
    ∷ nothing
    ∷ layout (text ∷ asset ∷ asset ∷ asset ∷ [])
    ∷ layout (text ∷ text ∷ asset ∷ [])
    ∷ layout (
        asset ∷ asset ∷ text ∷ text ∷ authority ∷ authority ∷ authority ∷ key ∷ text ∷ no_extensions
        ∷ [])
    ∷ layout (text ∷ dict text hex ∷ no_extensions ∷ [])
    ∷ layout (
        text
        ∷ maybe authority
        ∷ maybe authority
        ∷ maybe authority
        ∷ maybe key
        ∷ text
        ∷ text
        ∷ no_extensions
        ∷ [])
    ∷ layout (text ∷ text ∷ time ∷ time ∷ asset ∷ text ∷ text ∷ no_extensions ∷ [])
    ∷ layout (text ∷ list u64 ∷ u8 ∷ no_extensions ∷ [])
    ∷ layout (text ∷ list u64 ∷ no_extensions ∷ [])
    ∷ layout (u64 ∷ text ∷ asset ∷ text ∷ text ∷ list (variant (only 1 (layout (time ∷ [])))) ∷ [])
    ∷ layout (text ∷ u32 ∷ asset ∷ [])
    ∷ []

unfoldable pub layout_of : ℕ → Format
layout_of op_id = elim (get_elem? layouts op_id) [ none ↦ nothing | some f ↦ f ]

-- An operation on the wire: its number, and then its layout.
abbrev pub any_operation : Format
any_operation = op layout_of
