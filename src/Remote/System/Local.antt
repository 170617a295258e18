-- ===== src/Remote/System/Local.antt =====
-- Project_3: what the operations of client.c are to be, as operations on the files of the server.
use os_design.Prelude.{
  ℕ, ◌-◌, ◌%◌, ◌^◌, ◌<◌, ◌≤◌, ◌≡◌, ◌≢◌, ◌+◌, List, [], ◌∷◌, ◌++◌, Bool, Option, none, some, ◌==◌,
  if◌then◌else◌, length, replicate,
}
use os_design.Remote.Hello.{Result, returns, enoent, eacces, bytes_from}
use os_design.Remote.Requests.Laws.{IsString}
use os_design.Remote.System.{
  Files, client_readdir, Call, getattr, readdir, opening, reading, truncating, Answer, status,
  attributes, entries, bytes,
}

-- The documented behaviour of the system calls: `stat` fills the whole block, and `pread` fails, or
-- it gives as many of the bytes that a file holds from the offset on as there are and were asked
-- for.
pub record IsFiles {S : Type 0} (f : Files S) (stat_size : ℕ) : Type 0 where
  pub stat_fills :
      (s : S) (path block : List ℕ) → f.stat s path ≡ some block → length block ≡ stat_size
  pub content : S → List ℕ → Option (List ℕ)
  pub pread_gives :
      (s : S) (path : List ℕ) (size offset : ℕ)
      → f.pread s path size offset
        ≡ elim (content s path) [ none ↦ none | some held ↦ some (bytes_from held offset size) ]

-- The path without its last four bytes.
abbrev pub cut_path : List ℕ → List ℕ
cut_path path = bytes_from path 0 (length path - 4)

-- What a call is to do on the files of the server: `getattr` and `open` of the path below the mount
-- point, `read` of the bytes of one `pread`, `readdir` of one name. What `truncate` does is to the
-- file whose path lacks four bytes, and a failure is not reported. A `read` that fails reports it,
-- as `open` does.
unfoldable pub local_read : Option (List ℕ) → ℕ → ℕ → Answer
local_read none size offset = status enoent
local_read (some held) size offset =
    let block = bytes_from held offset size in bytes (length block) block

unfoldable pub local_getattr : ℕ → Option (List ℕ) → Answer
local_getattr stat_size none = attributes enoent (replicate stat_size 0)
local_getattr stat_size (some block) = attributes (returns 0) block

unfoldable pub local_open : Bool → ℕ → Result
local_open opened flags = if opened then (if flags % 4 == 0 then returns 0 else eacces) else enoent

module _ {S : Type 0} (f : Files S) (stat_size : ℕ) (laws : IsFiles f stat_size)
    (mount : List ℕ) where
  unfoldable pub local : S → Call → Answer × S
  unfolding local_read local_getattr local_open
  local s (getattr path) = (local_getattr stat_size (f.stat s (mount ++ path)), s)
  local s (readdir path) = let (res, names) = client_readdir path in (entries res names, s)
  local s (opening path flags) = (status (local_open (f.open_rdonly s (mount ++ path)) flags), s)
  local s (reading path size offset) = (local_read (laws.content s (mount ++ path)) size offset, s)
  local s (truncating path size) =
      let (done, after) = f.truncate s (mount ++ cut_path path) size in (status (returns 0), after)

-- The answers to calls that follow one another, and the files after them.
module _ {S : Type 0} where
  unfoldable pub run : (S → Call → Answer × S) → S → List Call → List Answer × S
  run step s [] = ([], s)
  run step s (c ∷ cs) =
      let (a, s') = step s c in let (as', last) = run step s' cs in (a ∷ as', last)

module _ {S : Type 0} (f : Files S) (stat_size : ℕ) (laws : IsFiles f stat_size)
    (mount : List ℕ) where
  -- A path is a string of at most 1000 bytes, and of 1023 with the mount point.
  abbrev pub IsPath : List ℕ → Type 0
  IsPath path = IsString path × (length path ≤ 1000) × (length mount + length path < 1024)

  -- A read does not fail on the files of the server, and is of one byte or more and fewer than
  -- 2 ^ 31. The other numbers fit 64 bits.
  abbrev pub Fits : S → Call → Type 0
  Fits s (getattr path) = IsPath path
  Fits s (readdir path) = Unit
  Fits s (opening path flags) = IsPath path
  Fits s (reading path size offset) =
      IsPath path
      × (1 ≤ size)
      × (size < 2 ^ 31)
      × (offset < 256 ^ 8)
      × (laws.content s (mount ++ path) ≢ none)
  Fits s (truncating path size) = IsPath path × (4 ≤ length path) × (size < 256 ^ 8)

  abbrev pub AllFit : S → List Call → Type 0
  AllFit s [] = Unit
  AllFit s (c ∷ cs) = Fits s c × AllFit (local f stat_size laws mount s c).1 cs
