-- ===== src/Remote/Chunks/Laws.antt =====
-- The loops of `server_read` and `client_read` together.
use os_design.Prelude.{
  ℕ, suc, ◌+◌, ◌<◌, ◌≤◌, ◌^◌, ◌≡◌, ap, ◌∙◌, List, [], ◌∷◌, ◌++◌, Option, none, some, length, arith,
}
use os_design.Remote.Hello.{bytes_from}
use os_design.Remote.Chunks.{
  packet, short, server_read, client_read, overruns, finished, new_buffer,
}
use os_design.Remote.Socket.{IsWhole}
use os_design.Remote.Chunks.Turns.{overrun_last}

module _ (content : List ℕ) (pread : ℕ → ℕ → Option (List ℕ))
    (reads : (size offset : ℕ) → pread size offset ≡ some (bytes_from content offset size)) where
  -- The packets of the server, and what the client makes of them behind earlier ones.
  pub record Answer (fuel size offset : ℕ) : Type 0 where
    pub packets : List (List ℕ)
    pub sent : server_read pread fuel size offset ≡ some packets
    pub received :
        (total : ℕ) (recv_data buf : List ℕ)
        → total + size < 2 ^ 31
        → client_read packets recv_data total buf
          ≡ finished
              (total + length (bytes_from content offset size))
              (buf ++ bytes_from content offset size)

-- When `pread` fails on a read of at least one byte, the server sends -1 as the size, and the client
-- copies 65535 bytes from its buffer of 4096, if `recv` takes what `send` gave.
pub client_read_failed :
    (recvs : List (List ℕ) → List (List ℕ))
    → IsWhole recvs
    → (pread : ℕ → ℕ → Option (List ℕ)) (fuel size offset : ℕ) → 1 ≤ size
    → ((count : ℕ) → pread count offset ≡ none)
    → (ps : List (List ℕ)) × (server_read pread (suc fuel) size offset ≡ some ps)
      × (client_read (recvs ps) new_buffer 0 [] ≡ overruns 65535)
unfolding server_read short
client_read_failed recvs whole pread fuel size offset lo fails = (
  packet none 1 ∷ [],
  rw (fails 4096) (rw (fails size) (ground arith)),
  ap (λ (ps : List (List ℕ)). client_read ps new_buffer 0 []) (whole.one_each (packet none 1 ∷ []))
      ∙ overrun_last,
)
