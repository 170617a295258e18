-- ===== src/Closure/BitArray.antt =====
-- Project_1/Stuff/bit_char.c: an array of bits, packed eight to an `unsigned char`.
-- The heap block is the list of its bytes.
pub mod Laws
use os_design.Prelude.{
  ℕ, ◌+◌, ◌*◌, ◌/◌, ◌%◌, ◌^◌, List, bit_and, bit_or, ◌==◌, if◌then◌else◌, get_or, set, replicate,
}

-- `8*sizeof(unsigned char)`
abbrev pub char_bits : ℕ
char_bits = 8

-- `calloc`: every byte is zero.
unfoldable pub bit_array_create : ℕ → List ℕ
bit_array_create size = replicate (size / char_bits + 1) 0

-- `1 << (place % 8)`
abbrev pub mask : ℕ → ℕ
mask place = 2 ^ (place % char_bits)

-- The store converts the `int` back to an `unsigned char`.
unfoldable pub bit_array_set : List ℕ → ℕ → List ℕ
bit_array_set array place =
    set array (place / char_bits) (bit_or (get_or array (place / char_bits) 0) (mask place) % 2 ^ 8)

unfoldable pub bit_array_get : List ℕ → ℕ → ℕ
bit_array_get array place =
    if bit_and (get_or array (place / char_bits) 0) (mask place) == 0 then 0 else 1
