-- ===== src/Remote/Requests/Laws.antt =====
-- The requests of client.c as server.c handles them.
use os_design.Prelude.{
  ℕ, zero, suc, ◌+◌, ◌*◌, ◌/◌, ◌%◌, ◌^◌, ◌<◌, ◌≤◌, ◌≡◌, refl, ap, ◌∙◌, List, [], ◌∷◌, ◌++◌, length,
  length-append, arith,
}
use native.Mathlib.Numerals.{unary_clauses}
use os_design.Remote.Hello.{bytes_from}
use os_design.Remote.Hello.Read.{bytes_from_whole, bytes_from-prefix}
use os_design.Remote.Requests.{
  htons, to_bytes, from_bytes, getattr_request, open_request, read_request, truncate_request,
  Action, stat, open_rdonly, truncate, pread, c_string, after, in_path_temp, server_getatrr,
  server_open, server_truncate, server_read, dispatch, handle_request,
}

-- Byte orders: what is swapped twice, and what is written and read back.
pub htons-htons : (n : ℕ) → htons (htons n) ≡ n % 65536
unfolding htons
htons-htons n = omega arith

pub from_bytes-to_bytes : (width n : ℕ) → n < 256 ^ width → from_bytes (to_bytes width n) ≡ n
unfolding from_bytes to_bytes
from_bytes-to_bytes zero n lt = ground arith
from_bytes-to_bytes (suc width) n lt =
    let rest = from_bytes-to_bytes width (n / 256) (high width n lt) in rw rest (omega arith)
  where
    high : (width n : ℕ) → n < 256 ^ suc width → n / 256 < 256 ^ width
    high width n lt =
        let e : 256 ^ suc width ≡ 256 * 256 ^ width = simp unary_clauses (omega arith) in
        omega arith

-- A path that C reads whole: no zero byte.
abbrev pub IsString : List ℕ → Type 0
IsString s = c_string s ≡ s

pub number :
    (width n : ℕ) (rest : List ℕ) (w : ℕ)
    → w ≡ length (to_bytes width n)
    → n < 256 ^ width
    → from_bytes (bytes_from (to_bytes width n ++ rest) 0 w) ≡ n
number width n rest w e lt =
    ap from_bytes (bytes_from-prefix (to_bytes width n) rest w e) ∙ from_bytes-to_bytes width n lt

module _ (mount : List ℕ) where
  -- A request that fits the buffer is handled as it was sent.
  handle_whole :
      (a b : ℕ) (received : List ℕ)
      → length received ≤ 1022
      → handle_request mount (a ∷ b ∷ received)
        ≡ dispatch mount (htons (a + 256 * (b + 256 * 0))) (a ∷ b ∷ received)
  unfolding handle_request from_bytes
  handle_whole a b received fits =
      rw (bytes_from_whole (a ∷ b ∷ received) 1024 (omega arith))
        (rw (bytes_from-prefix (a ∷ b ∷ []) received 2 refl) refl)

  in_path_temp-fits :
      (call : List ℕ → Action) (path : List ℕ)
      → length mount + length path < 1024
      → in_path_temp mount call path ≡ call (mount ++ path)
  unfolding in_path_temp
  in_path_temp-fits call path room = ground (arith, length-append mount path)

  -- The same with the numbers and the name that the server reads.
  at_name :
      (call : List ℕ → Action) {name : List ℕ} (path : List ℕ)
      → name ≡ path
      → length mount + length path < 1024
      → in_path_temp mount call name ≡ call (mount ++ path)
  at_name call path e room = ap (in_path_temp mount call) e ∙ in_path_temp-fits call path room

  pub handle_getattr :
      (path : List ℕ)
      → IsString path
      → length path ≤ 1000
      → length mount + length path < 1024
      → handle_request mount (getattr_request path) ≡ stat (mount ++ path)
  unfolding getattr_request to_bytes htons from_bytes bytes_from dispatch after server_getatrr
      server_open server_truncate server_read
  handle_getattr path s fits room = handle_whole 0 4 path (omega arith) ∙ at_name stat path s room

  pub handle_open :
      (flags : ℕ) (path : List ℕ)
      → IsString path
      → length path ≤ 1000
      → length mount + length path < 1024
      → handle_request mount (open_request flags path) ≡ open_rdonly (mount ++ path)
  unfolding open_request to_bytes htons from_bytes bytes_from dispatch after server_getatrr
      server_open server_truncate server_read
  handle_open flags path s fits room =
      handle_whole 0 1 (to_bytes 4 (htons flags) ++ path) (omega arith)
      ∙ at_name open_rdonly path s room

  pub handle_read :
      (size offset : ℕ) (path : List ℕ)
      → size < 256 ^ 8
      → offset < 256 ^ 8
      → IsString path
      → length path ≤ 1000
      → length mount + length path < 1024
      → handle_request mount (read_request size offset path) ≡ pread (mount ++ path) size offset
  unfolding read_request to_bytes htons from_bytes bytes_from dispatch after server_getatrr
      server_open server_truncate server_read
  handle_read size offset path lt lt' s fits room =
      handle_whole 0 5 (to_bytes 8 size ++ (to_bytes 8 offset ++ path)) (omega arith)
      ∙ at_name
          (λ (p : List ℕ).
            pread p (from_bytes (bytes_from (to_bytes 8 size ++ (to_bytes 8 offset ++ path)) 0 8))
              (from_bytes (bytes_from (to_bytes 8 offset ++ path) 0 8)))
          path s room
      ∙ ap
          (λ (n : ℕ).
            pread (mount ++ path) n (from_bytes (bytes_from (to_bytes 8 offset ++ path) 0 8)))
          (number 8 size (to_bytes 8 offset ++ path) 8 refl lt)
      ∙ ap (pread (mount ++ path) size) (number 8 offset path 8 refl lt')

  -- What is sent ends four bytes early.
  sent :
      (size a b c d : ℕ) (path : List ℕ)
      → truncate_request size (path ++ a ∷ b ∷ c ∷ d ∷ [])
        ≡ to_bytes 2 (htons 3) ++ (to_bytes 8 size ++ path)
  unfolding truncate_request to_bytes
  sent size a b c d path =
      bytes_from-prefix (to_bytes 2 (htons 3) ++ (to_bytes 8 size ++ path)) (a ∷ b ∷ c ∷ d ∷ [])
        (length (path ++ a ∷ b ∷ c ∷ d ∷ []) + 6)
        (omega (arith, length-append path (a ∷ b ∷ c ∷ d ∷ [])))

  -- `truncate` of a path without zero bytes but for its last four bytes: those are not sent, and the
  -- server truncates the file that is named by the rest.
  pub handle_truncate :
      (size a b c d : ℕ) (path : List ℕ)
      → size < 256 ^ 8
      → IsString path
      → length path ≤ 1000
      → length mount + length path < 1024
      → handle_request mount (truncate_request size (path ++ a ∷ b ∷ c ∷ d ∷ []))
        ≡ truncate (mount ++ path) size
  unfolding truncate_request to_bytes htons from_bytes bytes_from dispatch after server_getatrr
      server_open server_truncate server_read
  handle_truncate size a b c d path lt s fits room = rw (sent size a b c d path) (
      handle_whole 0 3 (to_bytes 8 size ++ path) (omega arith)
      ∙ at_name (λ (p : List ℕ). truncate p (from_bytes (bytes_from (to_bytes 8 size ++ path) 0 8)))
          path s room
      ∙ ap (truncate (mount ++ path)) (number 8 size path 8 refl lt))

  -- A path without zero bytes, of at most 1000 bytes and 1023 with the mount point: the server opens, reads or asks for the
  -- status of the client's path below its mount point, with the client's size and offset.
  pub handle_request_lem :
      (size offset flags : ℕ) (path : List ℕ)
      → size < 256 ^ 8
      → offset < 256 ^ 8
      → IsString path
      → length path ≤ 1000
      → length mount + length path < 1024
      → (handle_request mount (getattr_request path) ≡ stat (mount ++ path))
        × (handle_request mount (open_request flags path) ≡ open_rdonly (mount ++ path))
        × (handle_request mount (read_request size offset path) ≡ pread (mount ++ path) size offset)
  handle_request_lem size offset flags path lt lt' s fits room = (
    handle_getattr path s fits room,
    handle_open flags path s fits room,
    handle_read size offset path lt lt' s fits room,
  )
