-- ===== src/Tests/Search.antt =====
-- The search of wasm/src/lib.rs.
use grpcgi.Base.{◌≡◌, refl, arith, ok, nothing}
use grpcgi.Base.Text.{ascii, bytes_eq}
use grpcgi.Ws.Search.{windows, position, find_subsequence}
use grpcgi.Ws.Search.Laws.{FirstAt, find_subsequence_first, find_subsequence-FirstAt}

found_run : find_subsequence (ascii "xabab") (ascii "ab") ≡ ok 1
unfolding find_subsequence windows position bytes_eq
found_run = refl

missing_run : find_subsequence (ascii "xyz") (ascii "ab") ≡ nothing
unfolding find_subsequence windows position bytes_eq
missing_run = refl

find_subsequence_first_example : FirstAt (ascii "xabab") (ascii "ab") 1
find_subsequence_first_example =
    find_subsequence_first (ascii "xabab") (ascii "ab") 1 (omega arith) found_run

find_subsequence-FirstAt_example : find_subsequence (ascii "xabab") (ascii "ab") ≡ ok 1
find_subsequence-FirstAt_example =
    find_subsequence-FirstAt (ascii "xabab") (ascii "ab") 1 (omega arith)
      (find_subsequence_first (ascii "xabab") (ascii "ab") 1 (omega arith) found_run)
