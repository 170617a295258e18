-- ===== src/Remote/Chunks/Cut.antt =====
-- An answer of `server_read` that does not come whole.
use os_design.Prelude.{
  ℕ, zero, suc, ◌+◌, ◌-◌, ◌≤◌, ◌≡◌, refl, ap, sym, ◌∙◌, List, [], ◌∷◌, ◌++◌, length, replicate,
  arith, some,
}
use os_design.Remote.Hello.{bytes_from}
use os_design.Remote.Hello.Read.{length-bytes_from, bytes_from-split, bytes_from_none}
use os_design.Remote.Requests.{htons, to_bytes, after}
use os_design.Remote.Chunks.{packet, client_read, finished, filled, new_buffer}
use os_design.Remote.Chunks.Turns.{size_read, done_read, data_read, client_turn}

-- What is behind some of the zeros.
after-replicate : (n m k : ℕ) → k ≡ n + m → after (replicate k 0) n ≡ replicate m 0
unfolding after
after-replicate zero m k e = rw e (ap (λ (x : ℕ). replicate {A = ℕ} x 0) (omega arith))
after-replicate (suc n) m zero e = absurd (omega (arith, e))
after-replicate (suc n) m (suc k) e = after-replicate n m k (omega (arith, e))

-- Some bytes and the zeros behind them.
bytes_from-zeros :
    (xs : List ℕ) (n m k : ℕ)
    → n ≡ length xs + m
    → m ≤ k
    → bytes_from (xs ++ replicate k 0) 0 n ≡ xs ++ replicate m 0
unfolding bytes_from
bytes_from-zeros [] zero zero zero e le = refl
bytes_from-zeros [] zero zero (suc k) e le = refl
bytes_from-zeros [] (suc n) (suc m) zero e le = absurd (omega arith)
bytes_from-zeros [] (suc n) (suc m) (suc k) e le =
    ap (λ (l : List ℕ). 0 ∷ l) (bytes_from-zeros [] n m k (omega (arith, e)) (omega arith))
bytes_from-zeros [] zero (suc m) k e le = absurd (omega (arith, e))
bytes_from-zeros [] (suc n) zero k e le = absurd (omega (arith, e))
bytes_from-zeros (x ∷ xs) zero m k e le = absurd (omega (arith, e))
bytes_from-zeros (x ∷ xs) (suc n) m k e le =
    ap (λ (l : List ℕ). x ∷ l) (bytes_from-zeros xs n m k (omega (arith, e)) le)

module _ (block : List ℕ) (m : ℕ) (le : m ≤ length block) (small : length block ≤ 4096) where
  -- The part of the packet that comes first, with `m` bytes of its data.
  abbrev head : List ℕ
  head = to_bytes 4 (htons (length block)) ++ (to_bytes 4 (htons 1) ++ bytes_from block 0 m)

  packet-head : bytes_from (packet (some block) 1) 0 (8 + m) ≡ head
  unfolding packet to_bytes bytes_from
  packet-head =
      sym (bytes_from-split (packet (some block) 1) 0 8 m)
      ∙ ap
          (λ (l : List ℕ).
            to_bytes 4 (htons (length block))
            ++ (to_bytes 4 (htons 1) ++ (l ++ bytes_from block 0 m)))
          (bytes_from_none block 0)

  zeros_behind : after new_buffer (length head) ≡ replicate (4096 - m) 0
  unfolding to_bytes
  zeros_behind =
      after-replicate (length head) (4096 - m) 4104
        (omega (arith, length-bytes_from block 0 m (omega arith)))

  data_cut :
      bytes_from (filled new_buffer head) 8 (length block)
      ≡ bytes_from block 0 m ++ replicate (length block - m) 0
  unfolding to_bytes
  data_cut =
      ap (λ (l : List ℕ). bytes_from (head ++ l) 8 (length block)) zeros_behind
      ∙ data_read (htons (length block)) (htons 1) (bytes_from block 0 m ++ replicate (4096 - m) 0)
          (length block)
      ∙ bytes_from-zeros (bytes_from block 0 m) (length block) (length block - m) (4096 - m)
          (omega (arith, length-bytes_from block 0 m (omega arith))) (omega arith)

  -- The last packet of an answer comes in two pieces, the first with its two numbers and `m` bytes of
  -- data. The client takes the first piece for the whole: it returns the number of all the bytes, and
  -- has copied zeros in place of those that come later.
  pub client_read_cut :
      (later : List (List ℕ))
      → client_read (bytes_from (packet (some block) 1) 0 (8 + m) ∷ later) new_buffer 0 []
        ≡ finished (length block) (bytes_from block 0 m ++ replicate (length block - m) 0)
  unfolding to_bytes
  client_read_cut later =
      let part = bytes_from block 0 m ++ replicate (length block - m) 0 in
      let behind = after new_buffer (length head) in
      ap (λ (l : List ℕ). client_read (l ∷ later) new_buffer 0 []) packet-head
      ∙ client_turn head later new_buffer [] 0 (length block) 1 part small (omega arith)
          (size_read (length block) (to_bytes 4 (htons 1) ++ (bytes_from block 0 m ++ behind))
            (omega arith))
          (done_read (htons (length block)) 1 (bytes_from block 0 m ++ behind) (omega arith))
          data_cut
      ∙ ap (λ (n : ℕ). finished n part) (omega arith)
