-- ===== src/Remote/Chunks.antt =====
-- Project_3/server.c `server_read` and Project_3/client.c `client_read`: a read is answered in
-- packets of at most 4096 bytes of data. `pread`, with the open file and `none` for its -1, is a
-- parameter. An `int` has 4 bytes, the low one first; `htons` makes a number of 16 bits of it.
pub mod Pieces
pub mod Turns
pub mod Laws
pub mod Cut
mod Tests
use os_design.Prelude.{
  ℕ, zero, suc, ◌+◌, ◌-◌, ◌*◌, ◌/◌, ◌^◌, List, [], ◌∷◌, ◌++◌, Bool, true, false, Option, none, some,
  ltb, ◌==◌, if◌then◌else◌, length, replicate,
}
use os_design.Remote.Hello.{bytes_from}
use os_design.Remote.Requests.{htons, to_bytes, from_bytes, after}

-- The bytes that one turn sends: `retsize`, `retdone` and those of `pread`. With -1 for `n`, which is
-- 65535 as a `uint16_t`, 2*sizeof(int)-1 bytes are sent.
pub packet : Option (List ℕ) → ℕ → List ℕ
unfolding to_bytes htons bytes_from
packet none done = bytes_from (to_bytes 4 (htons 65535) ++ to_bytes 4 (htons done)) 0 7
packet (some block) done = to_bytes 4 (htons (length block)) ++ (to_bytes 4 (htons done) ++ block)

-- `n < 4096`.
pub short : Option (List ℕ) → Bool
short none = true
short (some block) = ltb (length block) 4096

-- What `map` does, under the constructor of a result.
pub add_packet : List ℕ → Option (List (List ℕ)) → Option (List (List ℕ))
add_packet p none = none
add_packet p (some ps) = some (p ∷ ps)

-- The loop of `server_read`, on fuel; `none` is a loop that goes on. In the case of size 0 the
-- number of bytes behind the two numbers is not initialised, and is taken to be 0.
pub server_read : (ℕ → ℕ → Option (List ℕ)) → ℕ → ℕ → ℕ → Option (List (List ℕ))
unfolding packet short add_packet
server_read pread zero size offset = none
server_read pread (suc fuel) size offset =
    let n = pread 4096 offset in
    let rest = server_read pread fuel (size - 4096) (offset + 4096) in
    if ltb 4096 size
    then (if short n then some (packet n 1 ∷ []) else add_packet (packet n 0) rest)
    else if size == 0
    then some (packet (some []) 1 ∷ [])
    else some (packet (pread size offset) 1 ∷ [])

-- What `client_read` comes to: a `recv` that waits for ever, a `memcpy` of `rsize` bytes from behind
-- the end of `recv_data`, an `int` that overflows, or `totalsize` and the bytes copied to `buf`.
pub data Received : Type 0 where
  waiting : Received
  overruns : (rsize : ℕ) → Received
  overflows : Received
  finished : (totalsize : ℕ) → (buf : List ℕ) → Received

-- `calloc(2*sizeof(int)+4096, sizeof(char))`.
abbrev pub new_buffer : List ℕ
new_buffer = replicate 4104 0

-- `recv_data` after a `recv`, and after `bzero` of as many bytes as a pointer has.
abbrev pub filled : List ℕ → List ℕ → List ℕ
filled recv_data bytes = bytes ++ after recv_data (length bytes)

abbrev pub cleared : List ℕ → List ℕ
cleared recv_data = replicate 8 0 ++ after recv_data 8

-- The loop, on what the calls of `recv` give. Their number of bytes, `n`, is not looked at.
pub client_read : List (List ℕ) → List ℕ → ℕ → List ℕ → Received
unfolding htons from_bytes bytes_from after
client_read [] recv_data totalsize buf = waiting
client_read (bytes ∷ recvs) recv_data totalsize buf =
    let held = filled recv_data bytes in
    let rsize = htons (from_bytes (bytes_from held 0 4)) in
    let done = htons (from_bytes (bytes_from held 4 4)) in
    let copied = buf ++ bytes_from held 8 rsize in
    let rest = client_read recvs (cleared held) (totalsize + rsize) copied in
    if ltb 4096 rsize
    then overruns rsize
    else if ltb (totalsize + rsize) (2 ^ 31)
    then (if done == 0 then rest else finished (totalsize + rsize) copied)
    else overflows
