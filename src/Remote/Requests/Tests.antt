-- ===== src/Remote/Requests/Tests.antt =====
-- Requests for "/hello" below "/srv".
use os_design.Prelude.{ℕ, ◌∷◌, [], List, refl}
use os_design.Remote.Hello.{hello_path}
use os_design.Remote.Requests.{c_string}
use os_design.Remote.Requests.Laws.{IsString}

abbrev srv : List ℕ
srv = 47 ∷ 115 ∷ 114 ∷ 118 ∷ []

-- "/h".
abbrev cut : List ℕ
cut = 47 ∷ 104 ∷ []

hello_path-IsString : IsString hello_path
unfolding c_string
hello_path-IsString = refl

cut-IsString : IsString cut
unfolding c_string
cut-IsString = refl
