-- ===== src/Dwarf/Data.antt =====
-- The DWARF constants and records of cpp/tc397_elfio_resolver.cpp.
use tc397tools.Prelude.{ℕ, Bool, List, Bytes}

abbrev pub dw_tag_class_type : ℕ
dw_tag_class_type = 0x02

abbrev pub dw_tag_member : ℕ
dw_tag_member = 0x0d

abbrev pub dw_tag_structure_type : ℕ
dw_tag_structure_type = 0x13

abbrev pub dw_tag_typedef : ℕ
dw_tag_typedef = 0x16

abbrev pub dw_tag_union_type : ℕ
dw_tag_union_type = 0x17

abbrev pub dw_tag_const_type : ℕ
dw_tag_const_type = 0x26

abbrev pub dw_tag_variable : ℕ
dw_tag_variable = 0x34

abbrev pub dw_tag_volatile_type : ℕ
dw_tag_volatile_type = 0x35

abbrev pub dw_tag_restrict_type : ℕ
dw_tag_restrict_type = 0x37

abbrev pub dw_at_location : ℕ
dw_at_location = 0x02

abbrev pub dw_at_name : ℕ
dw_at_name = 0x03

abbrev pub dw_at_byte_size : ℕ
dw_at_byte_size = 0x0b

abbrev pub dw_at_data_member_location : ℕ
dw_at_data_member_location = 0x38

abbrev pub dw_at_encoding : ℕ
dw_at_encoding = 0x3e

abbrev pub dw_at_type : ℕ
dw_at_type = 0x49

abbrev pub dw_form_data1 : ℕ
dw_form_data1 = 0x0b

abbrev pub dw_form_data2 : ℕ
dw_form_data2 = 0x05

abbrev pub dw_form_data4 : ℕ
dw_form_data4 = 0x06

abbrev pub dw_form_data8 : ℕ
dw_form_data8 = 0x07

abbrev pub dw_form_udata : ℕ
dw_form_udata = 0x0f

abbrev pub dw_form_indirect : ℕ
dw_form_indirect = 0x16

pub record AttrSpec : Type 0 where
  pub name : ℕ
  pub form : ℕ

pub record Abbrev : Type 0 where
  pub tag : ℕ
  pub has_children : Bool
  pub attrs : List AttrSpec

-- `s` is the 64 bits of the int64_t.
pub record AttrValue : Type 0 where
  pub form : ℕ
  pub u : ℕ
  pub s : ℕ
  pub str : Bytes
  pub block : Bytes

pub record Die : Type 0 where
  pub offset : ℕ
  pub cu_start : ℕ
  pub tag : ℕ
  pub has_children : Bool
  pub attrs : List (ℕ × AttrValue)
  pub children : List ℕ

-- `end` of the source is `stop`, and `start` keeps its name.
pub record CuHeader : Type 0 where
  pub start : ℕ
  pub stop : ℕ
  pub abbrev_offset : ℕ
  pub address_size : ℕ
  pub parsed : Bool
