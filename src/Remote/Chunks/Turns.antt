-- ===== src/Remote/Chunks/Turns.antt =====
-- A packet of `server_read` as `client_read` sees it.
use os_design.Prelude.{
  ℕ, ◌+◌, ◌<◌, ◌≤◌, ◌^◌, ◌≡◌, refl, ap, ◌∙◌, List, [], ◌∷◌, ◌++◌, none, some, length, true, false,
  arith, ltb, ◌==◌, if◌then◌else◌,
}
use os_design.Remote.Hello.{bytes_from}
use os_design.Remote.Hello.Read.{bytes_from-prefix}
use os_design.Remote.Requests.{htons, to_bytes, from_bytes, after}
use os_design.Remote.Requests.Laws.{htons-htons, from_bytes-to_bytes}
use os_design.Remote.Chunks.{packet, client_read, overruns, finished, filled, cleared, new_buffer}

-- A number of 16 bits in an `int`, there and back.
there_and_back : (n : ℕ) → n < 65536 → htons (from_bytes (to_bytes 4 (htons n))) ≡ n
there_and_back n lt =
    let fits : htons n < 256 ^ 4 = unfold htons in omega arith in
    ap htons (from_bytes-to_bytes 4 (htons n) fits) ∙ htons-htons n ∙ omega arith

-- The two numbers of a packet and its data as the client reads them, whatever else the buffer holds.
pub size_read :
    (n : ℕ) (rest : List ℕ)
    → n < 65536
    → htons (from_bytes (bytes_from (to_bytes 4 (htons n) ++ rest) 0 4)) ≡ n
unfolding to_bytes
size_read n rest lt =
    ap (λ (l : List ℕ). htons (from_bytes l)) (bytes_from-prefix (to_bytes 4 (htons n)) rest 4 refl)
    ∙ there_and_back n lt

pub done_read :
    (m n : ℕ) (rest : List ℕ)
    → n < 65536
    → htons (from_bytes (bytes_from (to_bytes 4 m ++ (to_bytes 4 (htons n) ++ rest)) 4 4)) ≡ n
unfolding to_bytes bytes_from
done_read m n rest lt =
    ap (λ (l : List ℕ). htons (from_bytes l)) (bytes_from-prefix (to_bytes 4 (htons n)) rest 4 refl)
    ∙ there_and_back n lt

pub data_read :
    (m n : ℕ) (rest : List ℕ) (size : ℕ)
    → bytes_from (to_bytes 4 m ++ (to_bytes 4 n ++ rest)) 8 size ≡ bytes_from rest 0 size
unfolding to_bytes bytes_from
data_read m n rest size = refl

-- One turn of the client, from what is read of the buffer.
pub client_turn :
    (bytes : List ℕ) (recvs : List (List ℕ)) (recv_data buf : List ℕ) (total size done : ℕ)
    (block : List ℕ)
    → size ≤ 4096
    → total + size < 2 ^ 31
    → htons (from_bytes (bytes_from (filled recv_data bytes) 0 4)) ≡ size
    → htons (from_bytes (bytes_from (filled recv_data bytes) 4 4)) ≡ done
    → bytes_from (filled recv_data bytes) 8 size ≡ block
    → client_read (bytes ∷ recvs) recv_data total buf ≡ (
        if done == 0
        then client_read recvs (cleared (filled recv_data bytes)) (total + size) (buf ++ block)
        else finished (total + size) (buf ++ block))
unfolding client_read
client_turn bytes recvs recv_data buf total size done block le lt e f g =
    let within : ltb 4096 size ≡ false = ground arith in
    let small : ltb (total + size) (2 ^ 31) ≡ true = ground arith in
    rw (e, f, g, within, small) refl

-- A packet as the client sees it.
pub packet_turn :
    (block : List ℕ) (done : ℕ) (ps : List (List ℕ)) (recv_data buf : List ℕ) (total : ℕ)
    → done < 65536
    → length block ≤ 4096
    → total + length block < 2 ^ 31
    → client_read (packet (some block) done ∷ ps) recv_data total buf ≡ (
        if done == 0
        then client_read ps
            (cleared (filled recv_data (packet (some block) done)))
            (total + length block)
            (buf ++ block)
        else finished (total + length block) (buf ++ block))
unfolding packet to_bytes
packet_turn block done ps recv_data buf total small le lt =
    let p = packet (some block) done in
    let rest = after recv_data (length p) in
    client_turn p ps recv_data buf total (length block) done block le lt
      (size_read (length block) (to_bytes 4 (htons done) ++ (block ++ rest)) (omega arith))
      (done_read (htons (length block)) done (block ++ rest) small)
      (data_read (htons (length block)) (htons done) (block ++ rest) (length block)
        ∙ bytes_from-prefix block rest (length block) refl)

pub client_last :
    (block recv_data buf : List ℕ) (total : ℕ)
    → length block ≤ 4096
    → total + length block < 2 ^ 31
    → client_read (packet (some block) 1 ∷ []) recv_data total buf
      ≡ finished (total + length block) (buf ++ block)
client_last block recv_data buf total le lt =
    packet_turn block 1 [] recv_data buf total (omega arith) le lt

pub client_more :
    (block : List ℕ) (ps : List (List ℕ)) (recv_data buf : List ℕ) (total : ℕ)
    → length block ≤ 4096
    → total + length block < 2 ^ 31
    → client_read (packet (some block) 0 ∷ ps) recv_data total buf
      ≡ client_read ps
          (cleared (filled recv_data (packet (some block) 0)))
          (total + length block)
          (buf ++ block)
client_more block ps recv_data buf total le lt =
    packet_turn block 0 ps recv_data buf total (omega arith) le lt

pub overrun_last : client_read (packet none 1 ∷ []) new_buffer 0 [] ≡ overruns 65535
unfolding client_read packet htons to_bytes from_bytes bytes_from
overrun_last = refl
