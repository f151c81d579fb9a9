-- ===== src/Ws/Search.antt =====
-- `find_subsequence` and `contains_subsequence` of wasm/src/lib.rs.
pub mod Laws
use grpcgi.Base.{ℕ, suc, ◌+◌, Bool, true, false, List, [], ◌∷◌, length, take, ltb, ◌==◌}
use grpcgi.Base.{if◌then◌else◌, Option, none, some, Outcome, ok, nothing, panic, stuck}
use grpcgi.Base.Machine.{Bytes}
use grpcgi.Base.Text.{bytes_eq, next_index}

-- `haystack.windows(n)`, for `n` above 0.
unfoldable pub windows : ℕ → Bytes → List Bytes
windows n [] = []
windows n (x ∷ xs) =
    let later = windows n xs in if ltb (length (x ∷ xs)) n then [] else take n (x ∷ xs) ∷ later

-- `.position(|window| window == needle)`
unfoldable pub position : List Bytes → Bytes → Option ℕ
position [] needle = none
position (w ∷ ws) needle =
    let later = position ws needle in if bytes_eq w needle then some 0 else next_index later

abbrev pub or_nothing : Option ℕ → Outcome ℕ
or_nothing none = nothing
or_nothing (some i) = ok i

-- `Option::is_some`
abbrev pub is_some : Outcome ℕ → Outcome Bool
is_some (ok i) = ok true
is_some nothing = ok false
is_some panic = panic
is_some stuck = stuck

-- `windows(0)` panics.
unfoldable pub find_subsequence : Bytes → Bytes → Outcome ℕ
find_subsequence haystack needle =
    if length needle == 0
    then panic
    else or_nothing (position (windows (length needle) haystack) needle)

unfoldable pub contains_subsequence : Bytes → Bytes → Outcome Bool
contains_subsequence haystack needle = is_some (find_subsequence haystack needle)
