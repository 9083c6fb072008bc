-- ===== src/Decimal/Tests.antt =====
-- Decimal texts at concrete inputs.
use karu.Base.{◌≡◌, ◌↔◌, refl, codes, value, unexpected, u64_max}
use karu.Uri.{malformed_uri}
use karu.Decimal.{parse_u64}
use karu.Decimal.Parse.{Spells, parse_u64_iff}

largest : parse_u64 (codes "18446744073709551615") ≡ value u64_max
unfolding parse_u64
largest = refl

overflow :
    parse_u64 (codes "18446744073709551616")
    ≡ unexpected (malformed_uri (codes "'18446744073709551616' is not a byte count"))
unfolding parse_u64
overflow = refl

signed : parse_u64 (codes "+1") ≡ unexpected (malformed_uri (codes "'+1' is not a byte count"))
unfolding parse_u64
signed = refl

parse_u64_iff_example : (parse_u64 (codes "0420") ≡ value 420) ↔ Spells (codes "0420") 420
parse_u64_iff_example = parse_u64_iff (codes "0420") 420
