-- ===== src/Compat/Examples.antt =====
-- Sizes, read.
use testprotocols.Compat.{parse_window_size, size_unit}
use testprotocols.Compat.Sizes.{parse_window_size-decimal}
use testprotocols.Exec.{ret, exc}
use testprotocols.Exec.Failure.{value_error}
use testprotocols.Prelude.{◌≡◌, refl, ◌++◌, arith}
use testprotocols.Prelude.Text.{codes, decimal}

size_tests :
    (parse_window_size (codes "8M") ≡ ret 8388608)
    × (parse_window_size (codes " 1.5k ") ≡ ret 1536)
    × (parse_window_size (codes "65536") ≡ ret 65536)
    × (parse_window_size (codes "0.0001k") ≡ exc value_error)
    × (parse_window_size (codes "1.k") ≡ exc value_error)
    × (parse_window_size (codes "10000000000000000000000000001")
        ≡ ret 10000000000000000000000000000)
    × (parse_window_size (codes "8MB") ≡ exc value_error)
unfolding parse_window_size
size_tests = (refl, refl, refl, refl, refl, refl, refl)

parse_window_size-decimal_example : parse_window_size (decimal 8 ++ codes "M") ≡ ret 8388608
unfolding size_unit
parse_window_size-decimal_example =
    parse_window_size-decimal 8 (codes "M") 1048576 refl (omega arith)
