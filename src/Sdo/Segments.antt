-- ===== src/Sdo/Segments.antt =====
-- The copying loop of `SDO::upload` and the bits of a command byte.
use kacanopen.Prelude.{
  ℕ, zero, suc, ◌-◌, ◌*◌, ◌/◌, ◌%◌, ◌<◌, ◌≡◌, refl, List, [], ◌∷◌, ◌++◌, arith, length, get_or,
  take, agree_below, all_below, bit_and, bit_and-one,
}
use mathlib.Core.List.{append_assoc, append-nil}
use kacanopen.SdoResponse.{of_message}
use kacanopen.Sdo.{copy_segment}
use kacanopen.Sdo.Receivers.{response_message}

pub append_cons : (xs : List ℕ) (y : ℕ) (ys : List ℕ) → (xs ++ (y ∷ [])) ++ ys ≡ xs ++ (y ∷ ys)
append_cons xs y ys = append_assoc xs (y ∷ []) ys

-- The copying loop takes as many bytes as are wanted and there.
pub copy_segment_lem :
    (bs : List ℕ) (size : ℕ) (result : List ℕ)
    → copy_segment bs size result ≡ (result ++ take size bs, size - length bs)
unfolding copy_segment
copy_segment_lem [] zero result = ground (arith, append-nil result)
copy_segment_lem [] (suc size) result = ground (arith, append-nil result)
copy_segment_lem (b ∷ bs) zero result = ground (arith, append-nil result)
copy_segment_lem (b ∷ bs) (suc size) result =
    ground
      (arith, copy_segment_lem bs size (result ++ (b ∷ [])), append_cons result b (take size bs))

pub seven_bytes :
    (bs : List ℕ)
    → length bs ≡ 7
    → get_or bs 0 0
        ∷ get_or bs 1 0
        ∷ get_or bs 2 0
        ∷ get_or bs 3 0
        ∷ get_or bs 4 0
        ∷ get_or bs 5 0
        ∷ get_or bs 6 0
        ∷ []
      ≡ bs
seven_bytes (a ∷ b ∷ c ∷ d ∷ e ∷ f ∷ g ∷ []) h = refl
seven_bytes _ h = absurd (omega arith)

pub of_message-response :
    (n command : ℕ) (bs : List ℕ)
    → length bs ≡ 7
    → ((of_message (response_message n command bs)).payload ≡ bs)
      × ((of_message (response_message n command bs)).command ≡ command)
unfolding of_message
of_message-response n command bs h = (seven_bytes bs h, refl)

-- Single bits of a command byte.
pub bit_01 : (c : ℕ) → c < 256 → bit_and c 0x01 ≡ c % 2
bit_01 c h = bit_and-one c

pub bit_02 : (c : ℕ) → c < 256 → bit_and c 0x02 ≡ c / 2 % 2 * 2
unfolding all_below
bit_02 c h = agree_below 256 (λ y. bit_and y 0x02) (λ y. y / 2 % 2 * 2) c refl h

pub bit_10 : (c : ℕ) → c < 256 → bit_and c 0x10 ≡ c / 16 % 2 * 16
unfolding all_below
bit_10 c h = agree_below 256 (λ y. bit_and y 0x10) (λ y. y / 16 % 2 * 16) c refl h
