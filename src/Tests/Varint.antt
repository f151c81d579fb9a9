-- ===== src/Tests/Varint.antt =====
-- The varint routines of both filters.
use grpcgi.Base.{◌≡◌, refl, arith, [], ◌∷◌, ◌++◌, length, ok}
use grpcgi.Base.Machine.{Bytes}
use grpcgi.Wire.Varint.{varint}
use grpcgi.Http
use grpcgi.Http.Varint.Laws.{read_varint-varint}

abbrev three_hundred : Bytes
three_hundred = 0xac ∷ 0x02 ∷ []

three_hundred_run : Http.Varint.read_varint (three_hundred ++ 7 ∷ []) ≡ ok (300, 2)
unfolding Http.Varint.read_varint Http.Varint.read_varint_loop
three_hundred_run = refl

read_varint-varint_example :
    Http.Varint.read_varint (varint 300 ++ 7 ∷ []) ≡ ok (300, length (varint 300))
read_varint-varint_example = read_varint-varint 300 (7 ∷ []) (omega arith)
