-- ===== src/Reader/Tests.antt =====
-- The byte readers on concrete buffers.
use tc397tools.Prelude.{[], ◌∷◌, ◌++◌, ◌≡◌, Bytes, arith}
use tc397tools.Prelude.Result.{ok, undefined}
use tc397tools.Reader.{read_uleb, read_uint}
use tc397tools.Reader.Leb.{read_uleb-value, read_uleb-wide}
use tc397tools.Reader.Fixed.{read_uint-value}

abbrev section : Bytes
section = 0x78 ∷ 0x56 ∷ 0x34 ∷ 0x12 ∷ 0xff ∷ []

abbrev two_more : Bytes
two_more = 0xe5 ∷ 0x8e ∷ []

abbrev ten_more : Bytes
ten_more = 0x81 ∷ 0x82 ∷ 0x83 ∷ 0x84 ∷ 0x85 ∷ 0x86 ∷ 0x87 ∷ 0x88 ∷ 0x89 ∷ 0x8a ∷ []

read_uleb-value_example : read_uleb (0 ∷ 0xe5 ∷ 0x8e ∷ 0x26 ∷ 7 ∷ []) 1 ≡ ok (624485, 4)
read_uleb-value_example =
    read_uleb-value (0 ∷ []) two_more 0x26 (7 ∷ []) (omega arith) (omega arith) (omega arith)

read_uleb-wide_example : read_uleb (0 ∷ (ten_more ++ 0x01 ∷ [])) 1 ≡ undefined
read_uleb-wide_example = read_uleb-wide (0 ∷ []) ten_more 0x01 [] (omega arith) (omega arith)

read_uint-value_example : read_uint section 1 3 ≡ ok 0x123456
read_uint-value_example = read_uint-value section 1 3 (omega arith) (omega arith) (omega arith)
