-- ===== src/Remote/Socket.antt =====
-- What the code of Project_3 takes from `recv`. A connection is a stream of bytes: what the calls of
-- `recv` give one after another of what was sent by `send` is an argument of the models.
use os_design.Prelude.{ℕ, ◌≡◌, List, [], ◌∷◌, Option, none, some}

-- Each `recv` takes all that one `send` gave. TCP does not promise it.
pub record IsWhole (recvs : List (List ℕ) → List (List ℕ)) : Type 0 where
  pub one_each : (sends : List (List ℕ)) → recvs sends ≡ sends

-- The one `recv` for one `send`; `none` waits for ever.
abbrev pub first_of : List (List ℕ) → Option (List ℕ)
first_of [] = none
first_of (bytes ∷ rest) = some bytes
