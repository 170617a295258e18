-- ===== src/Closure/BitArray/Laws.antt =====
-- What the bit array of bit_char.c promises: a set of the places below eight times its length.
use os_design.Prelude.{
  ℕ, ◌+◌, ◌*◌, ◌/◌, ◌%◌, ◌^◌, ◌<◌, ◌≡◌, refl, List, Bool, true, bit_and, bit_or, ◌==◌, ==_iff,
  if◌then◌else◌, length, length-set, length-replicate, get_or, get_or-set, get_or-replicate,
  all_below, all_below_sound, arith,
}
use os_design.Closure.BitArray.{mask, bit_array_create, bit_array_set, bit_array_get}

-- The bit `q` of a byte, after the bit `p` was set in it.
abbrev bit_in : ℕ → ℕ → ℕ
bit_in byte q = if bit_and byte (2 ^ q) == 0 then 0 else 1

abbrev set_in : ℕ → ℕ → ℕ
set_in byte p = bit_or byte (2 ^ p) % 2 ^ 8

byte_law : ℕ → ℕ → ℕ → Bool
byte_law byte p q = bit_in (set_in byte p) q == (if p == q then 1 else bit_in byte q)

byte_table : all_below 256 (λ byte. all_below 8 (λ p. all_below 8 (λ q. byte_law byte p q))) ≡ true
unfolding all_below byte_law
byte_table = refl

bit_in-set_in :
    (byte p q : ℕ)
    → byte < 256
    → p < 8
    → q < 8
    → bit_in (set_in byte p) q ≡ (if p == q then 1 else bit_in byte q)
bit_in-set_in byte p q hb hp hq = (==_iff _ _).0 (
    unfold byte_law in
    (all_below_sound 8 (byte_law byte p) q
      (all_below_sound 8 (λ p. all_below 8 (byte_law byte p)) p
        (all_below_sound 256 (λ byte. all_below 8 (λ p. all_below 8 (byte_law byte p))) byte
          byte_table hb)
        hp)
      hq))

-- Every element is an `unsigned char`.
abbrev pub IsBytes : List ℕ → Type 0
IsBytes array = (i : ℕ) → get_or array i 0 < 256

pub bit_array_create-IsBytes : (size : ℕ) → IsBytes (bit_array_create size)
unfolding bit_array_create
bit_array_create-IsBytes size i = omega (arith, get_or-replicate {A = ℕ} (size / 8 + 1) i 0)

pub bit_array_set-IsBytes :
    (array : List ℕ) (place : ℕ) → IsBytes array → IsBytes (bit_array_set array place)
unfolding bit_array_set
bit_array_set-IsBytes array place bytes i = ground (
  arith,
  get_or-set array (place / 8) i (bit_or (get_or array (place / 8) 0) (mask place) % 2 ^ 8) 0,
  bytes i,
)

pub length-bit_array_set :
    (array : List ℕ) (place : ℕ) → length (bit_array_set array place) ≡ length array
unfolding bit_array_set
length-bit_array_set array place = length-set array (place / 8) _

pub length-bit_array_create : (size : ℕ) → length (bit_array_create size) ≡ size / 8 + 1
unfolding bit_array_create
length-bit_array_create size = length-replicate (size / 8 + 1) 0

-- The array is big enough: every bit that was asked for lies in it.
pub bit_array_create_fits :
    (size place : ℕ) → place < size → place < 8 * length (bit_array_create size)
bit_array_create_fits size place h = omega (arith, length-bit_array_create size)

bit_in-zero : all_below 8 (λ q. bit_in 0 q == 0) ≡ true
unfolding all_below
bit_in-zero = refl

-- A new array has no bit set.
pub get-create : (size place : ℕ) → bit_array_get (bit_array_create size) place ≡ 0
unfolding bit_array_create bit_array_get
get-create size place = ground (
  arith,
  get_or-replicate {A = ℕ} (size / 8 + 1) (place / 8) 0,
  all_below_sound 8 (λ q. bit_in 0 q == 0) (place % 8) bit_in-zero,
)

-- Reading any place after a write: the written bit reads 1, every other is as before.
pub get-set :
    (array : List ℕ) (p q : ℕ)
    → IsBytes array
    → p < 8 * length array
    → bit_array_get (bit_array_set array p) q ≡ (if p == q then 1 else bit_array_get array q)
unfolding bit_array_set bit_array_get
get-set array p q bytes h = ground (
  arith,
  get_or-set array (p / 8) (q / 8) (bit_or (get_or array (p / 8) 0) (mask p) % 2 ^ 8) 0,
  bytes (p / 8),
  bit_in-set_in (get_or array (p / 8) 0) (p % 8) (q % 8),
)
