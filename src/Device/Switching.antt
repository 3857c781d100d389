-- ===== src/Device/Switching.antt =====
-- The validity bit of a PDO's COB-ID.
use kacanopen.Prelude.{ℕ, ◌+◌, ◌-◌, ◌*◌, ◌/◌, ◌%◌, ◌^◌, ◌<◌, ◌≡◌, ap, ◌∙◌, arith}
use kacanopen.Prelude.{set_top, clear_top}
use kacanopen.Device.Configure.{disabled_cob_id, enabled_cob_id}

-- Disabling sets bit 31 of a COB-ID of 32 bits and enabling clears it; both keep the other bits,
-- whatever bit 31 was.
pub disabled_cob_id_lem :
    (c : ℕ)
    → c < 2 ^ 32
    → (disabled_cob_id c ≡ 2 ^ 31 + c % 2 ^ 31)
      × (enabled_cob_id c ≡ c % 2 ^ 31)
      × (enabled_cob_id (disabled_cob_id c) ≡ c % 2 ^ 31)
unfolding disabled_cob_id enabled_cob_id
disabled_cob_id_lem c h = (
  on c h,
  off c h,
  ap enabled_cob_id (on c h) ∙ (off (2 ^ 31 + c % 2 ^ 31) (omega arith) ∙ omega arith),
)
  where
    split : (x : ℕ) → x ≡ x / 2 ^ 31 * 2 ^ 31 + x % 2 ^ 31
    split x = omega arith

    on : (x : ℕ) → x < 2 ^ 32 → disabled_cob_id x ≡ 2 ^ 31 + x % 2 ^ 31
    on x small =
        ap disabled_cob_id (split x)
        ∙ set_top 31 (x / 2 ^ 31) (x % 2 ^ 31) (2 ^ 31 - 1) (omega arith) (omega arith)
            (omega arith)

    off : (x : ℕ) → x < 2 ^ 32 → enabled_cob_id x ≡ x % 2 ^ 31
    off x small =
        ap enabled_cob_id (split x)
        ∙ clear_top 31 (x / 2 ^ 31) (x % 2 ^ 31) (omega arith) (omega arith)
        ∙ omega arith
