-- ===== src/Remote/Hello.antt =====
-- Project_3/network.c, which hello.c repeats: the four operations of a file system with one file.
-- A path is the list of its bytes, compared by `strcmp`; a buffer of `struct stat` is a record, and
-- a call returns a number or the negative of an error. `off_t` is signed and `size_t` unsigned, of
-- 64 bits each, so in `network_read` an offset is read modulo 2 ^ 64.
pub mod Read
mod Tests
use os_design.Prelude.{
  ℕ, zero, suc, ◌+◌, ◌-◌, ◌%◌, ◌^◌, List, [], ◌∷◌, Bool, true, false, ◌&&◌, Option, none, some, ltb,
  ◌==◌, if◌then◌else◌, length,
}
use os_design.Prelude.Int.{ℤ, pos, negsuc, lt_ℤ}

-- The result of a call of an operation.
pub data Result : Type 0 where
  returns : ℕ → Result
  enoent eacces : Result

-- What the headers give: the type bits of `st_mode`, with the modes they are joined with.
pub record Modes : Type 0 where
  pub directory_0755 : ℕ
  pub regular_0444 : ℕ

-- The fields of `struct stat` that are set; the others are 0.
pub record Stat : Type 0 where
  pub st_mode : ℕ
  pub st_nlink : ℕ
  pub st_size : ℕ

-- `strcmp(a, b) == 0`.
pub same_string : List ℕ → List ℕ → Bool
same_string [] [] = true
same_string [] (b ∷ bs) = false
same_string (a ∷ xs) [] = false
same_string (a ∷ xs) (b ∷ bs) = a == b && same_string xs bs

-- "Hello World!\n".
abbrev pub hello_str : List ℕ
hello_str = 72 ∷ 101 ∷ 108 ∷ 108 ∷ 111 ∷ 32 ∷ 87 ∷ 111 ∷ 114 ∷ 108 ∷ 100 ∷ 33 ∷ 10 ∷ []

-- "/hello".
abbrev pub hello_path : List ℕ
hello_path = 47 ∷ 104 ∷ 101 ∷ 108 ∷ 108 ∷ 111 ∷ []

-- "/".
abbrev pub root_path : List ℕ
root_path = 47 ∷ []

pub network_getattr : Modes → List ℕ → Result × Stat
network_getattr m path =
    let cleared : Stat = record { st_mode = 0; st_nlink = 0; st_size = 0 } in
    if same_string path root_path
    then (returns 0, record cleared { st_mode = m.directory_0755; st_nlink = 2 })
    else if same_string path hello_path
    then (
      returns 0,
      record cleared { st_mode = m.regular_0444; st_nlink = 1; st_size = length hello_str },
    )
    else (enoent, cleared)

-- The entries that `filler` was called with, in order: ".", ".." and `hello_path + 1`.
pub network_readdir : List ℕ → Result × List (List ℕ)
network_readdir path =
    if same_string path root_path
    then (returns 0, (46 ∷ []) ∷ (46 ∷ 46 ∷ []) ∷ (104 ∷ 101 ∷ 108 ∷ 108 ∷ 111 ∷ []) ∷ [])
    else (enoent, [])

-- `flags & 3` against `O_RDONLY`, which is 0.
pub network_open : List ℕ → ℕ → Result
network_open path flags =
    if same_string path hello_path then (if flags % 4 == 0 then returns 0 else eacces) else enoent

-- The `n` bytes from `offset` on.
unfoldable pub bytes_from : List ℕ → ℕ → ℕ → List ℕ
bytes_from [] offset n = []
bytes_from (b ∷ bs) zero zero = []
bytes_from (b ∷ bs) zero (suc n) = b ∷ bytes_from bs zero n
bytes_from (b ∷ bs) (suc offset) n = bytes_from bs offset n

-- The value of an `off_t` in a comparison with a `size_t`.
pub to_size_t : ℤ → ℕ
to_size_t (pos n) = n % 2 ^ 64
to_size_t (negsuc n) = 2 ^ 64 - 1 - n % 2 ^ 64

-- The result, and the bytes that `memcpy` wrote to the buffer. When `offset + size` wraps around, C
-- reads behind the string, which the list of bytes leaves out.
pub network_read : List ℕ → ℕ → ℤ → Result × List ℕ
unfolding to_size_t bytes_from
network_read path size offset =
    let len = length hello_str in
    let from = to_size_t offset in
    if same_string path hello_path
    then (if ltb from len
        then (let cut = if ltb len ((from + size) % 2 ^ 64) then len - from else size in
            (returns cut, bytes_from hello_str from cut))
        else (returns 0, []))
    else (enoent, [])
