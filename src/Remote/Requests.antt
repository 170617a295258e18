-- ===== src/Remote/Requests.antt =====
-- Project_3/client.c and Project_3/server.c: how a request is laid out in bytes, and what the
-- server makes of it. Both run on little-endian machines with `int` of 4 and `size_t` and `off_t`
-- of 8 bytes. What `recv` gives the server is an argument, of which 1024 bytes count at most.
-- The copy of a path that the server makes has no room for a terminating zero, which is taken to
-- follow it.
pub mod Laws
mod Tests
use os_design.Prelude.{
  ℕ, zero, suc, ◌+◌, ◌*◌, ◌/◌, ◌%◌, ◌^◌, List, [], ◌∷◌, ◌++◌, Bool, true, false, ◌==◌,
  if◌then◌else◌, length, get_or, ltb,
}
use os_design.Remote.Hello.{bytes_from}

-- The two bytes of a `uint16_t` swapped; `ntohs` is the same function.
unfoldable pub htons : ℕ → ℕ
htons n = n % 256 * 256 + n / 256 % 256

-- `memcpy` of a number to `width` bytes, the low byte first, and back.
unfoldable pub to_bytes : ℕ → ℕ → List ℕ
to_bytes zero n = []
to_bytes (suc width) n = n % 256 ∷ to_bytes width (n / 256)

unfoldable pub from_bytes : List ℕ → ℕ
from_bytes [] = 0
from_bytes (b ∷ bs) = b + 256 * from_bytes bs

-- What `client_getattr`, `client_open`, `client_read` and `client_truncate` send.
pub getattr_request : List ℕ → List ℕ
unfolding to_bytes htons
getattr_request path = to_bytes 2 (htons 4) ++ path

pub open_request : ℕ → List ℕ → List ℕ
unfolding to_bytes htons
open_request flags path = to_bytes 2 (htons 1) ++ (to_bytes 4 (htons flags) ++ path)

pub read_request : ℕ → ℕ → List ℕ → List ℕ
unfolding to_bytes htons
read_request size offset path =
    to_bytes 2 (htons 5) ++ (to_bytes 8 size ++ (to_bytes 8 offset ++ path))

-- `strlen(path)+2+sizeof(int)` bytes are sent.
pub truncate_request : ℕ → List ℕ → List ℕ
unfolding to_bytes htons
truncate_request size path =
    bytes_from (to_bytes 2 (htons 3) ++ (to_bytes 8 size ++ path)) 0 (length path + 6)

-- The system call that the server answers a request with, and its path.
pub data Action : Type 0 where
  stat : (path : List ℕ) → Action
  open_rdonly : (path : List ℕ) → Action
  truncate : (path : List ℕ) → (size : ℕ) → Action
  pread : (path : List ℕ) → (size offset : ℕ) → Action
  nothing : Action
  overflow : Action  -- a path that does not fit `path_temp`

-- The string that begins a zeroed buffer.
unfoldable pub c_string : List ℕ → List ℕ
c_string [] = []
c_string (b ∷ bs) = let rest = c_string bs in if b == 0 then [] else b ∷ rest

-- The bytes from an index on.
unfoldable pub after : List ℕ → ℕ → List ℕ
after bs zero = bs
after [] (suc i) = []
after (b ∷ bs) (suc i) = after bs i

module _ (mount : List ℕ) where
  -- The 1024 bytes of `path_temp` are to hold the mount point, the path and a zero, up to which
  -- `strlen(path_temp)` reads.
  pub in_path_temp : (List ℕ → Action) → List ℕ → Action
  in_path_temp call name =
      let path_temp = mount ++ name in
      if ltb (length path_temp) 1024 then call path_temp else overflow

  pub server_getatrr : List ℕ → Action
  unfolding c_string after in_path_temp
  server_getatrr buffer = in_path_temp stat (c_string (after buffer 2))

  pub server_open : List ℕ → Action
  unfolding c_string after in_path_temp
  server_open buffer = in_path_temp open_rdonly (c_string (after buffer 6))

  pub server_truncate : List ℕ → Action
  unfolding c_string after from_bytes in_path_temp
  server_truncate buffer =
      let size = from_bytes (bytes_from (after buffer 2) 0 8) in
      in_path_temp (λ (path : List ℕ). truncate path size) (c_string (after buffer 10))

  pub server_read : List ℕ → Action
  unfolding c_string after from_bytes in_path_temp
  server_read buffer =
      let size = from_bytes (bytes_from (after buffer 2) 0 8) in
      let offset = from_bytes (bytes_from (after buffer 10) 0 8) in
      in_path_temp (λ (path : List ℕ). pread path size offset) (c_string (after buffer 18))

  -- The handler for the operation code.
  pub dispatch : ℕ → List ℕ → Action
  unfolding server_getatrr server_open server_truncate server_read
  dispatch op buffer =
      if op == 1
      then server_open buffer
      else if op == 3
      then server_truncate buffer
      else if op == 4
      then server_getatrr buffer
      else if op == 5
      then server_read buffer
      else nothing

  pub handle_request : List ℕ → Action
  unfolding dispatch
  handle_request received =
      let recv_data = bytes_from received 0 1024 in
      dispatch (htons (from_bytes (bytes_from recv_data 0 2))) recv_data
