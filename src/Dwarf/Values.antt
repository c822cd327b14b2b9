-- ===== src/Dwarf/Values.antt =====
-- member_offset and address_from_location of DwarfResolver end.
use tc397tools.Prelude.{
  ℕ, ◌+◌, List, [], ◌∷◌, ◌≡◌, ◌≢◌, ◌⊎◌, refl, arith, Bytes, ltb, length, Option-cases, inl, inr,
}
use tc397tools.Prelude.Result.{stuck}
use tc397tools.Prelude.Ends.{Halts, returns, ◌⟫◌, Ends-if, ne-stuck}
use tc397tools.Prelude.Table.{lookup}
use tc397tools.Dwarf.Data.{Die, CuHeader, dw_at_location, dw_at_data_member_location}
use tc397tools.Dwarf.Types.{
  offset_of_block, member_offset, unit_size, location_value, address_from_location,
}
use tc397tools.Dwarf.Tables.{read_uleb-ne-stuck}
use tc397tools.Dwarf.Attributes.{read_uint_loop-Halts}

block_cases : (block : Bytes) → (block ≡ []) ⊎ ((op : ℕ) × (rest : Bytes) × (block ≡ op ∷ rest))
block_cases [] = inl refl
block_cases (op ∷ rest) = inr (op, rest, refl)

offset_of_block-ne-stuck : (block : Bytes) → offset_of_block block ≢ stuck
unfolding offset_of_block
offset_of_block-ne-stuck [] e = cc
offset_of_block-ne-stuck (op ∷ rest) e = ground (arith, read_uleb-ne-stuck (op ∷ rest) 1)

-- What the members and the locations say is read in full.
pub member_offset-ne-stuck : (die : Die) → member_offset die ≢ stuck
unfolding member_offset
member_offset-ne-stuck die e = elim (Option-cases (lookup dw_at_data_member_location die.attrs)) [
  | inl absent ↦ ground arith
  | inr (value, found) ↦ ground (arith, offset_of_block-ne-stuck value.block)
]

location_value-ne-stuck :
    (cus : List CuHeader) (die : Die) (block : Bytes) → location_value cus die block ≢ stuck
unfolding location_value
location_value-ne-stuck cus die block =
    let size = unit_size cus die.cu_start in
    let halts : Halts (location_value cus die block) =
      Ends-if (returns tt) (read_uint_loop-Halts size block 1 0 0 ⟫ λ v h. returns tt)
        (ltb (length block) (1 + size)) in
    ne-stuck halts

pub address_from_location-ne-stuck :
    (cus : List CuHeader) (die : Die) → address_from_location cus die ≢ stuck
unfolding address_from_location
address_from_location-ne-stuck cus die e = elim (Option-cases (lookup dw_at_location die.attrs)) [
  | inl absent ↦ ground arith
  | inr (value, found) ↦ elim (block_cases value.block) [
    | inl empty ↦ ground arith
    | inr (op, rest, shape) ↦ ground (arith, location_value-ne-stuck cus die (op ∷ rest))
  ]
]
