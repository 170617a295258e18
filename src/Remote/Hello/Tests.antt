-- ===== src/Remote/Hello/Tests.antt =====
-- A read of the first five bytes.
use os_design.Prelude.{◌≡◌, refl, [], ◌∷◌}
use os_design.Prelude.Int.{pos}
use os_design.Remote.Hello.{returns, hello_path, network_read, bytes_from, same_string}

-- "Hello".
first_five : network_read hello_path 5 (pos 0) ≡ (returns 5, 72 ∷ 101 ∷ 108 ∷ 108 ∷ 111 ∷ [])
unfolding network_read bytes_from same_string
first_five = refl
