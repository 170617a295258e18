-- ===== src/Remote/System/Tests.antt =====
-- Calls on "/hello" of a server with one file, below "/srv", whose status is one byte.
use os_design.Prelude.{
  ℕ, ◌≡◌, refl, ◌++◌, List, [], ◌∷◌, true, false, Option, none, some, if◌then◌else◌, Bool-cases,
  inl, inr,
}
use os_design.Remote.Hello.{hello_path, same_string, bytes_from}
use os_design.Remote.System.{Files, Call, getattr, readdir, opening, reading, truncating}
use os_design.Remote.System.Local.{IsFiles}

abbrev srv : List ℕ
srv = 47 ∷ 115 ∷ 114 ∷ 118 ∷ []

-- "/srv/hello".
abbrev name : List ℕ
name = srv ++ hello_path

-- The state is the bytes of the file.
abbrev held_at : List ℕ → List ℕ → Option (List ℕ)
held_at content path = if same_string path name then some content else none

abbrev one_file : Files (List ℕ)
one_file = record {
  stat = λ content path. if same_string path name then some (7 ∷ []) else none;
  open_rdonly = λ content path. same_string path name;
  pread = λ content path size offset. elim (held_at content path) [
    | none ↦ none
    | some held ↦ some (bytes_from held offset size)
  ];
  truncate = λ content path size.
      if same_string path name then (true, bytes_from content 0 size) else (false, content);
}

one_file-IsFiles : IsFiles one_file 1
one_file-IsFiles = record {
  stat_fills = λ s path block e. elim (Bool-cases (same_string path name)) [
    | inl here ↦
        let same : some (7 ∷ []) ≡ some block = rw here at e in
        let b : 7 ∷ [] ≡ block = cc in rw (← b) refl
    | inr other ↦ let gone : none ≡ some block = rw other at e in absurd cc
  ];
  content = held_at;
  pread_gives = λ s path size offset. refl;
}

abbrev calls : List Call
calls =
    getattr hello_path
    ∷ opening hello_path 0
    ∷ reading hello_path 4096 7
    ∷ truncating hello_path 5
    ∷ readdir hello_path
    ∷ []

abbrev each_send : List (List ℕ) → List (List ℕ)
each_send sends = sends
