-- ===== src/Remote/System/Messages.antt =====
-- The messages of the server as the client reads them, and a path without its last bytes.
use os_design.Prelude.{
  ℕ, zero, suc, ◌+◌, ◌-◌, ◌*◌, ◌≤◌, ◌≡◌, refl, ap, sym, ◌∙◌, List, [], ◌∷◌, ◌++◌, Bool, true, false,
  Option, none, some, ◌==◌, length, replicate, length-replicate, arith, Bool-cases, inl, inr,
}
use os_design.Remote.Hello.{returns, bytes_from}
use os_design.Remote.Hello.Read.{bytes_from-prefix, bytes_from_whole, split_at, length-bytes_from}
use os_design.Remote.Requests.{htons, to_bytes, from_bytes, c_string}
use os_design.Remote.Requests.Laws.{IsString}
use os_design.Remote.Chunks.{filled}
use os_design.Remote.Requests.{after}
use os_design.Remote.System.{
  getattr_answer, open_answer, truncate_answer, result_code, getattr_result, open_result,
  truncate_result, attributes,
}
use os_design.Remote.System.Local.{cut_path, local_getattr, local_open}

pub two_bytes :
    (a b : ℕ) (rest : List ℕ) → result_code (a ∷ b ∷ rest) ≡ htons (a + 256 * (b + 256 * 0))
unfolding result_code from_bytes
two_bytes a b rest =
    ap (λ (l : List ℕ). htons (from_bytes l)) (bytes_from-prefix (a ∷ b ∷ []) rest 2 refl)

pub getattr_back :
    (stat_size : ℕ) (o : Option (List ℕ))
    → ((block : List ℕ) → o ≡ some block → length block ≡ stat_size)
    → (let (res, stbuf) = getattr_result stat_size (getattr_answer stat_size o) in
        attributes res stbuf)
      ≡ local_getattr stat_size o
unfolding getattr_result getattr_answer to_bytes htons local_getattr bytes_from
getattr_back stat_size none fills = rw (two_bytes 0 0 (replicate stat_size 0)) refl
getattr_back stat_size (some block) fills =
    rw (two_bytes 0 1 block)
      (rw (bytes_from_whole block stat_size (omega (arith, fills block refl))) refl)

four :
    (l : List ℕ) → length l ≡ 4 → (a : ℕ) × (b : ℕ) × (c : ℕ) × (d : ℕ) × (l ≡ a ∷ b ∷ c ∷ d ∷ [])
four (a ∷ b ∷ c ∷ d ∷ []) e = (a, b, c, d, refl)
four [] e = absurd (omega (arith, e))
four (a ∷ []) e = absurd (omega (arith, e))
four (a ∷ b ∷ []) e = absurd (omega (arith, e))
four (a ∷ b ∷ c ∷ []) e = absurd (omega (arith, e))
four (a ∷ b ∷ c ∷ d ∷ x ∷ l) e = absurd (omega (arith, e))

-- Four bytes and what is before them.
pub split_last :
    (path : List ℕ)
    → 4 ≤ length path
    → (a : ℕ) × (b : ℕ) × (c : ℕ) × (d : ℕ) × (path ≡ cut_path path ++ a ∷ b ∷ c ∷ d ∷ [])
split_last path le =
    let (a, b, c, d, e) =
      four (bytes_from path (length path - 4) 4)
        (length-bytes_from path (length path - 4) 4 (omega arith)) in
    (
      a,
      b,
      c,
      d,
      sym (bytes_from_whole path (length path - 4 + 4) (omega arith))
          ∙ sym (
              split_at path 0 (length path - 4) 4 (length path - 4) (length path - 4 + 4)
                (omega arith) refl)
          ∙ ap (λ (l : List ℕ). cut_path path ++ l) e,
    )

pub IsString-cut : (path rest : List ℕ) → IsString (path ++ rest) → IsString path
unfolding c_string
IsString-cut [] rest s = refl
IsString-cut (b ∷ path) rest s = elim (Bool-cases (b == 0)) [
  | inl zero_byte ↦ let t : [] ≡ b ∷ (path ++ rest) = rw zero_byte at s in absurd cc
  | inr byte ↦
      let t : b ∷ c_string (path ++ rest) ≡ b ∷ (path ++ rest) = rw byte at s in
      rw byte (ap (λ (l : List ℕ). b ∷ l) (IsString-cut path rest cc))
]

after-whole : (n : ℕ) (bs : List ℕ) → length bs ≤ n → after bs n ≡ []
unfolding after
after-whole zero [] le = refl
after-whole zero (b ∷ bs) le = absurd (omega arith)
after-whole (suc n) [] le = refl
after-whole (suc n) (b ∷ bs) le = after-whole n bs (omega arith)

append_nil : (bs : List ℕ) → bs ++ [] ≡ bs
append_nil [] = refl
append_nil (b ∷ bs) = ap (λ (l : List ℕ). b ∷ l) (append_nil bs)

-- A message that fills the buffer.
pub filled_whole : (n : ℕ) (bs : List ℕ) → length bs ≡ n → filled (replicate n 0) bs ≡ bs
filled_whole n bs e =
    ap (λ (l : List ℕ). bs ++ l)
      (after-whole (length bs) (replicate n 0) (omega (arith, e, length-replicate {A = ℕ} n 0)))
    ∙ append_nil bs

pub length-getattr_answer :
    (stat_size : ℕ) (o : Option (List ℕ))
    → ((block : List ℕ) → o ≡ some block → length block ≡ stat_size)
    → length (getattr_answer stat_size o) ≡ stat_size + 2
unfolding getattr_answer to_bytes
length-getattr_answer stat_size none fills = omega (arith, length-replicate {A = ℕ} stat_size 0)
length-getattr_answer stat_size (some block) fills = omega (arith, fills block refl)

-- An answer of two bytes at the beginning of a buffer.
pub open_filled :
    (opened : Bool) (flags : ℕ) (recv_data : List ℕ)
    → open_result flags (filled recv_data (open_answer opened)) ≡ local_open opened flags
unfolding open_result open_answer to_bytes htons local_open
open_filled true flags recv_data = rw (two_bytes 0 1 (after recv_data 2)) refl
open_filled false flags recv_data = rw (two_bytes 0 0 (after recv_data 2)) refl

pub truncate_filled :
    (done : Bool) (recv_data : List ℕ)
    → truncate_result (filled recv_data (truncate_answer done)) ≡ returns 0
unfolding truncate_result truncate_answer to_bytes htons
truncate_filled true recv_data = rw (two_bytes 0 0 (after recv_data 2)) refl
truncate_filled false recv_data = rw (two_bytes 255 255 (after recv_data 2)) refl
