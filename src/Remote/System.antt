-- ===== src/Remote/System.antt =====
-- Project_3: an operation of the file system in client.c with the answer of server.c. The files of
-- the server, the size of `struct stat` and what `recv` gives of what was sent are parameters.
-- `client_truncate` copies 8 bytes from a buffer of two into a number of two, of which the two that
-- were received are kept here. One request is handled at a time.
pub mod Local
pub mod Messages
pub mod Laws
mod Tests
use os_design.Prelude.{
  ℕ, suc, ◌+◌, ◌-◌, ◌/◌, ◌%◌, List, [], ◌∷◌, ◌++◌, Bool, true, false, Option, none, some, map, ◌==◌,
  if◌then◌else◌, length, replicate,
}
use os_design.Prelude.Int.{ℤ, pos, negsuc, eq_ℤ}
use os_design.Remote.Hello.{Result, returns, enoent, eacces, same_string, root_path, bytes_from}
use os_design.Remote.Requests.{
  htons, to_bytes, from_bytes, getattr_request, open_request, read_request, truncate_request,
  Action, nothing, overflow, handle_request,
}
use os_design.Remote.Requests
use os_design.Remote.Socket.{first_of}
use os_design.Remote.Chunks.{
  client_read, new_buffer, filled, waiting, overruns, overflows, finished,
}
use os_design.Remote.Chunks

-- The system calls of the server on a path. `stat` gives the bytes of `struct stat`, `pread` those of
-- the file that `open` has opened, and -1 is `none` or `false`.
pub record Files (S : Type 0) : Type 0 where
  pub stat : S → List ℕ → Option (List ℕ)
  pub open_rdonly : S → List ℕ → Bool
  pub pread : S → List ℕ → ℕ → ℕ → Option (List ℕ)
  pub truncate : S → List ℕ → ℕ → Bool × S

-- What is sent back: one message, the packets of a read as far as the loop gives them, nothing, or
-- what a server does that has written behind the end of `path_temp`.
pub data Reply : Type 0 where
  message : (sent : List ℕ) → Reply
  stream : (packets : Option (List (List ℕ))) → Reply
  silence : Reply
  anything : Reply

-- `response = htons(response)` in front of the bytes of a zeroed buffer or of `fileStat`.
pub getattr_answer : ℕ → Option (List ℕ) → List ℕ
unfolding to_bytes htons
getattr_answer stat_size none = to_bytes 2 (htons 0) ++ replicate stat_size 0
getattr_answer stat_size (some file_stat) = to_bytes 2 (htons 1) ++ file_stat

pub open_answer : Bool → List ℕ
unfolding to_bytes htons
open_answer opened = to_bytes 2 (htons (if opened then 1 else 0))

-- -1 is 65535 in 16 bits.
pub truncate_answer : Bool → List ℕ
unfolding to_bytes htons
truncate_answer done = to_bytes 2 (htons (if done then 0 else 65535))

-- `ntohs(result)` of the first two bytes.
pub result_code : List ℕ → ℕ
unfolding htons from_bytes bytes_from
result_code recv_data = htons (from_bytes (bytes_from recv_data 0 2))

-- What the client makes of the message: the result of the call and the bytes of `*stbuf`.
pub getattr_result : ℕ → List ℕ → Result × List ℕ
unfolding result_code
getattr_result stat_size recv_data =
    let result = result_code recv_data in
    let cleared : List ℕ = replicate stat_size 0 in
    if result == 0
    then (enoent, cleared)
    else if result == 1
    then (returns 0, bytes_from recv_data 2 stat_size)
    else (returns 0, cleared)

pub open_result : ℕ → List ℕ → Result
unfolding result_code
open_result flags recv_data =
    let result = result_code recv_data in
    if result == 0
    then enoent
    else if result == 1
    then (if flags % 4 == 0 then returns 0 else eacces)
    else returns 0

-- `result == -1` compares an `int` that comes from a `uint16_t`.
pub truncate_result : List ℕ → Result
unfolding result_code
truncate_result recv_data =
    if eq_ℤ (pos (result_code recv_data)) (negsuc 0) then enoent else returns 0

-- The entries that `filler` was called with: ".", ".." and `hello_path + 1`.
pub client_readdir : List ℕ → Result × List (List ℕ)
client_readdir path =
    if same_string path root_path
    then (returns 0, (46 ∷ []) ∷ (46 ∷ 46 ∷ []) ∷ (104 ∷ 101 ∷ 108 ∷ 108 ∷ 111 ∷ []) ∷ [])
    else (enoent, [])

-- The members of `client_oper`.
pub data Call : Type 0 where
  getattr : (path : List ℕ) → Call
  readdir : (path : List ℕ) → Call
  opening : (path : List ℕ) → (flags : ℕ) → Call
  reading : (path : List ℕ) → (size offset : ℕ) → Call
  truncating : (path : List ℕ) → (size : ℕ) → Call

-- The result of a call with what it wrote; a `recv` that gets nothing waits for ever, and what C
-- leaves undefined has no result.
pub data Answer : Type 0 where
  status : Result → Answer
  attributes : Result → List ℕ → Answer
  entries : Result → List (List ℕ) → Answer
  bytes : (totalsize : ℕ) → (buf : List ℕ) → Answer
  waits : Answer
  undefined : Answer

-- What the loop of `client_read` comes to.
pub read_result : Chunks.Received → Answer
read_result waiting = waits
read_result (overruns rsize) = undefined
read_result overflows = undefined
read_result (finished totalsize buf) = bytes totalsize buf

module _ (recvs : List (List ℕ) → List (List ℕ)) where
  -- One `recv` into a buffer, and what `receive` makes of it.
  pub received : List ℕ → (List ℕ → Answer) → Reply → Answer
  received recv_data receive (message sent) = elim (first_of (recvs (sent ∷ []))) [
    | none ↦ waits
    | some taken ↦ receive (filled recv_data taken)
  ]
  received recv_data receive (stream packets) = waits
  received recv_data receive silence = waits
  received recv_data receive anything = undefined

  pub received_stream : Reply → Answer
  unfolding read_result
  received_stream (message sent) = waits
  received_stream silence = waits
  received_stream anything = undefined
  received_stream (stream none) = waits
  received_stream (stream (some packets)) =
      read_result (client_read (recvs packets) new_buffer 0 [])

module _ {S : Type 0} (f : Files S) (stat_size : ℕ) (mount : List ℕ)
    (recvs : List (List ℕ) → List (List ℕ)) where
  -- The system call and the answer of the server. The loop over the packets of a read gets a turn
  -- for each 4096 bytes and one more.
  pub respond : S → Action → Reply × S
  unfolding getattr_answer open_answer truncate_answer
  respond s (Requests.stat path) = (message (getattr_answer stat_size (f.stat s path)), s)
  respond s (Requests.open_rdonly path) = (message (open_answer (f.open_rdonly s path)), s)
  respond s (Requests.truncate path size) =
      let (done, after) = f.truncate s path size in (message (truncate_answer done), after)
  respond s (Requests.pread path size offset) =
      (stream (Chunks.server_read (f.pread s path) (suc (size / 4096)) size offset), s)
  respond s nothing = (silence, s)
  respond s overflow = (anything, s)

  pub serve : S → List ℕ → Reply × S
  unfolding respond
  serve s request = elim (first_of (recvs (request ∷ []))) [
    | none ↦ (silence, s)
    | some recv_data ↦ respond s (handle_request mount recv_data)
  ]

  -- A call of the client: the request, the server, and what comes back.
  pub remote : S → Call → Answer × S
  unfolding serve received received_stream getattr_result open_result truncate_result client_readdir
  remote s (getattr path) =
      let (reply, after) = serve s (getattr_request path) in
      (
        received recvs (replicate (stat_size + 2) 0)
            (λ d. let (res, stbuf) = getattr_result stat_size d in attributes res stbuf) reply,
        after,
      )
  remote s (readdir path) = let (res, names) = client_readdir path in (entries res names, s)
  remote s (opening path flags) =
      let (reply, after) = serve s (open_request flags path) in
      (
        received recvs (replicate (stat_size + 2) 0) (λ d. status (open_result flags d)) reply,
        after,
      )
  remote s (reading path size offset) =
      let (reply, after) = serve s (read_request size offset path) in
      (received_stream recvs reply, after)
  remote s (truncating path size) =
      let (reply, after) = serve s (truncate_request size path) in
      (received recvs (replicate 2 0) (λ d. status (truncate_result d)) reply, after)
