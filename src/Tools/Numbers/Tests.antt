-- ===== src/Tools/Numbers/Tests.antt =====
-- Numbers and periods from the command line.
use libgpiod.Prelude.{◌≡◌, refl, none, some, [], arith}
use libgpiod.Tools.Strings.{bytes, decimal}
use libgpiod.Tools.Numbers.{parse_uint, parse_period, sleep_us}
use libgpiod.Tools.Numbers.Laws.{PeriodUnit, suffix, parse_period-decimal}

ten_ms : parse_period (bytes "10ms") ≡ some 10000
unfolding parse_period
ten_ms = refl

spaces_and_sign : parse_uint (bytes " +7") ≡ some 7
unfolding parse_uint
spaces_and_sign = refl

-- The empty string is the number 0, and so is an empty period.
empty_number : parse_uint [] ≡ some 0
unfolding parse_uint
empty_number = refl

empty_period : parse_period [] ≡ some 0
unfolding parse_period
empty_period = refl

bad_unit : parse_period (bytes "3h") ≡ none
unfolding parse_period
bad_unit = refl

written : decimal 1203 [] ≡ bytes "1203"
unfolding decimal
written = refl

slept : sleep_us 2_000_003 ≡ (2, 3000)
unfolding sleep_us
slept = refl

-- The product has wrapped around.
parse_period-decimal_example :
    parse_period (decimal 18_446_744_073_710 (suffix PeriodUnit.seconds)) ≡ some 448_384
parse_period-decimal_example =
    parse_period-decimal 18_446_744_073_710 PeriodUnit.seconds (omega arith)
