-- ===== src/Remote/Chunks/Tests.antt =====
-- A read of 10000 bytes of a file of 9000, and one that fails.
use os_design.Prelude.{ℕ, suc, ◌≡◌, List, [], Option, some, none, replicate, refl, arith}
use os_design.Remote.Hello.{bytes_from}
use os_design.Remote.Socket.{IsWhole}
use os_design.Remote.Chunks.{server_read, client_read, new_buffer, overruns}
use os_design.Remote.Chunks.Laws.{client_read_failed}

abbrev content : List ℕ
content = replicate 9000 7

abbrev from_content : ℕ → ℕ → Option (List ℕ)
from_content size offset = some (bytes_from content offset size)

abbrev closed_file : ℕ → ℕ → Option (List ℕ)
closed_file size offset = none

abbrev each_send : List (List ℕ) → List (List ℕ)
each_send sends = sends

each_send-IsWhole : IsWhole each_send
each_send-IsWhole = record { one_each = λ sends. refl }

client_read_failed_example :
    (ps : List (List ℕ)) × (server_read closed_file (suc 3) 100 0 ≡ some ps)
    × (client_read (each_send ps) new_buffer 0 [] ≡ overruns 65535)
client_read_failed_example =
    client_read_failed each_send each_send-IsWhole closed_file 3 100 0 (omega arith) (λ count. refl)
