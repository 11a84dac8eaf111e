-- ===== src/Strings/Numbers.antt =====
-- strings/string_utils.cpp: `string_to_uint64`, `uint64_to_string`, `getBeginningOfDayTs`.
-- A string handed over by `c_str()` ends at its first NUL; a NUL also ends a conversion, so the
-- cut is not written here.
use hiaux.Base.{ℕ, ◌*◌, ◌/◌, Bytes}
use hiaux.Text.Decimal.{print_u64, scan_u64}
use mathlib.Core.Option.{get_or}

-- `junk` is the value of the local that `sscanf` leaves as it was when there is no digit.
unfoldable pub string_to_uint64 : ℕ → Bytes → ℕ
string_to_uint64 junk s = get_or (scan_u64 s) junk

unfoldable pub uint64_to_string : ℕ → Bytes
uint64_to_string i = print_u64 i

unfoldable pub get_beginning_of_day_ts : ℕ → ℕ
get_beginning_of_day_ts ts = ts / 86400 * 86400
