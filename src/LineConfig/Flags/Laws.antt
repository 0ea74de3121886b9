-- ===== src/LineConfig/Flags/Laws.antt =====
-- Which bits make_kernel_flags sets, and that equal settings have equal flags.
use libgpiod.Prelude.{||-false, ℕ, ◌==◌, ◌≡◌, refl, Bool, true, false, ◌&&◌, ◌||◌, arith}
use libgpiod.Mask.{mask_test_bit, mask_set_bit}
use libgpiod.Mask.Laws.{
  mask_test_bit-set_bit, mask_test_bit-zero, mask_test_bit-bit_or, mask_test_bit-pow,
}
use libgpiod.Enums.{
  LineDirection, input, output, LineEdge, rising, falling, both, LineBias, disabled, pull_up,
  pull_down, LineDrive, open_drain, open_source, LineClock, realtime, hte, direction_code,
  edge_code, bias_code, drive_code, clock_code,
}
use libgpiod.LineSettings.{LineSettings}
use libgpiod.LineConfig.Flags.{
  or_direction, or_edge, or_drive, or_bias, or_active_low, or_clock, make_kernel_flags,
  settings_equal, bool_code,
}

direction_code-injective :
    (a b : LineDirection) → (direction_code a == direction_code b) ≡ true → a ≡ b
direction_code-injective a b h = ground arith

edge_code-injective : (a b : LineEdge) → (edge_code a == edge_code b) ≡ true → a ≡ b
edge_code-injective a b h = ground arith

bias_code-injective : (a b : LineBias) → (bias_code a == bias_code b) ≡ true → a ≡ b
bias_code-injective a b h = ground arith

drive_code-injective : (a b : LineDrive) → (drive_code a == drive_code b) ≡ true → a ≡ b
drive_code-injective a b h = ground arith

clock_code-injective : (a b : LineClock) → (clock_code a == clock_code b) ≡ true → a ≡ b
clock_code-injective a b h = ground arith

bool_code-injective : (a b : Bool) → (bool_code a == bool_code b) ≡ true → a ≡ b
unfolding bool_code
bool_code-injective a b h = ground arith

all_six :
    (a b c d e f : Bool)
    → (a && b && c && d && e && f) ≡ true
    → (a ≡ true) × (b ≡ true) × (c ≡ true) × (d ≡ true) × (e ≡ true) × (f ≡ true)
all_six a b c d e f h = ground arith

abbrev SameKernelSettings : LineSettings → LineSettings → Type 0
SameKernelSettings l r =
    (l.direction ≡ r.direction)
    × (l.edge_detection ≡ r.edge_detection)
    × (l.bias ≡ r.bias)
    × (l.drive ≡ r.drive)
    × (l.active_low ≡ r.active_low)
    × (l.event_clock ≡ r.event_clock)

settings_equal→same : (l r : LineSettings) → settings_equal l r ≡ true → SameKernelSettings l r
unfolding settings_equal
settings_equal→same l r h =
    let (d, e, b, v, a, c) = all_six _ _ _ _ _ _ h in
    (
      direction_code-injective _ _ d,
      edge_code-injective _ _ e,
      bias_code-injective _ _ b,
      drive_code-injective _ _ v,
      bool_code-injective _ _ a,
      clock_code-injective _ _ c,
    )

-- Lines in one group of set_flags have the same kernel flags.
pub make_kernel_flags-settings_equal :
    (l r : LineSettings) → settings_equal l r ≡ true → make_kernel_flags l ≡ make_kernel_flags r
unfolding make_kernel_flags
make_kernel_flags-settings_equal l r h =
    let (d, e, b, v, a, c) = settings_equal→same l r h in rw (d, e, b, v, a, c)

-- The bits that each switch sets.
abbrev pub direction_bit : LineDirection → ℕ → Bool
direction_bit input k = 2 == k
direction_bit output k = 3 == k
direction_bit _ k = false

abbrev pub edge_bit : LineEdge → ℕ → Bool
edge_bit rising k = (2 == k) || (4 == k)
edge_bit falling k = (2 == k) || (5 == k)
edge_bit both k = (2 == k) || ((4 == k) || (5 == k))
edge_bit _ k = false

abbrev pub drive_bit : LineDrive → ℕ → Bool
drive_bit open_drain k = 6 == k
drive_bit open_source k = 7 == k
drive_bit _ k = false

abbrev pub bias_bit : LineBias → ℕ → Bool
bias_bit pull_up k = 8 == k
bias_bit pull_down k = 9 == k
bias_bit disabled k = 10 == k
bias_bit _ k = false

abbrev pub active_low_bit : Bool → ℕ → Bool
active_low_bit b k = b && (1 == k)

abbrev pub clock_bit : LineClock → ℕ → Bool
clock_bit realtime k = 11 == k
clock_bit hte k = 12 == k
clock_bit _ k = false

module _ (m k : ℕ) where
  or_direction-bit :
      (d : LineDirection)
      → mask_test_bit (or_direction m d) k ≡ (direction_bit d k || mask_test_bit m k)
  unfolding or_direction mask_set_bit
  or_direction-bit input = mask_test_bit-set_bit m 2 k
  or_direction-bit output = mask_test_bit-set_bit m 3 k
  or_direction-bit _ = refl

  or_drive-bit :
      (d : LineDrive) → mask_test_bit (or_drive m d) k ≡ (drive_bit d k || mask_test_bit m k)
  unfolding or_drive mask_set_bit
  or_drive-bit open_drain = mask_test_bit-set_bit m 6 k
  or_drive-bit open_source = mask_test_bit-set_bit m 7 k
  or_drive-bit _ = refl

  or_bias-bit : (b : LineBias) → mask_test_bit (or_bias m b) k ≡ (bias_bit b k || mask_test_bit m k)
  unfolding or_bias mask_set_bit
  or_bias-bit pull_up = mask_test_bit-set_bit m 8 k
  or_bias-bit pull_down = mask_test_bit-set_bit m 9 k
  or_bias-bit disabled = mask_test_bit-set_bit m 10 k
  or_bias-bit _ = refl

  or_active_low-bit :
      (b : Bool) → mask_test_bit (or_active_low m b) k ≡ (active_low_bit b k || mask_test_bit m k)
  unfolding or_active_low mask_set_bit
  or_active_low-bit true = mask_test_bit-set_bit m 1 k
  or_active_low-bit false = refl

  or_clock-bit :
      (c : LineClock) → mask_test_bit (or_clock m c) k ≡ (clock_bit c k || mask_test_bit m k)
  unfolding or_clock mask_set_bit
  or_clock-bit realtime = mask_test_bit-set_bit m 11 k
  or_clock-bit hte = mask_test_bit-set_bit m 12 k
  or_clock-bit _ = refl

or_edge-bit :
    (m k : ℕ) (e : LineEdge) → mask_test_bit (or_edge m e) k ≡ (edge_bit e k || mask_test_bit m k)
unfolding or_edge mask_set_bit
or_edge-bit m k rising =
    simp (mask_test_bit-bit_or, mask_test_bit-pow 4 k, mask_test_bit-pow 2 k) (ground arith)
or_edge-bit m k falling =
    simp (mask_test_bit-bit_or, mask_test_bit-pow 5 k, mask_test_bit-pow 2 k) (ground arith)
or_edge-bit m k both =
    simp (mask_test_bit-bit_or, mask_test_bit-pow 5 k, mask_test_bit-pow 4 k, mask_test_bit-pow 2 k)
      (ground arith)
or_edge-bit m k _ = refl

-- The flags of all six switches, and no other bit.
pub make_kernel_flags-bit :
    (s : LineSettings) (k : ℕ)
    → mask_test_bit (make_kernel_flags s) k ≡ (
        clock_bit s.event_clock k
        || (active_low_bit s.active_low k
            || (bias_bit s.bias k
                || (drive_bit s.drive k
                    || (edge_bit s.edge_detection k || direction_bit s.direction k)))))
unfolding make_kernel_flags
make_kernel_flags-bit s k =
    rw (or_clock-bit, or_active_low-bit, or_bias-bit, or_drive-bit, or_edge-bit, or_direction-bit)
      (rw (mask_test_bit-zero k) (rw ||-false))
