-- ===== src/Sdo/Server.antt =====
-- What an SDO server of CiA 301 answers to an upload, and how it reads a download request: the
-- independent side of the client's theorems.
use kacanopen.Prelude.{
  ◌<◌, ℕ, zero, suc, ◌+◌, ◌-◌, ◌*◌, ◌/◌, ◌%◌, ◌^◌, ◌≤◌, ◌≡◌, refl, ap, Option, none, some, List, [],
  ◌∷◌, ◌++◌, arith, length, take, drop, leb, ◌==◌, if◌then◌else◌, ◌&&◌,
}
use kacanopen.Message.{Message, data_at}
use kacanopen.Sdo.{Window}
use kacanopen.Sdo.Receivers.{response_message, responses_of}

-- The first `k` bytes, filled up with zeros.
unfoldable pub pad : ℕ → List ℕ → List ℕ
pad zero bs = []
pad (suc k) [] = 0 ∷ pad k []
pad (suc k) (b ∷ bs) = b ∷ pad k bs

pub length-pad : (k : ℕ) (bs : List ℕ) → length (pad k bs) ≡ k
unfolding pad
length-pad zero bs = refl
length-pad (suc k) [] = ap suc (length-pad k [])
length-pad (suc k) (b ∷ bs) = ap suc (length-pad k bs)

pub take-pad :
    (k size : ℕ) (bs : List ℕ)
    → size ≤ length bs
    → take size (pad k bs) ++ take (size - k) (drop k bs) ≡ take size bs
unfolding pad
take-pad k zero bs h = ground arith
take-pad zero (suc size) bs h = ground arith
take-pad (suc k) (suc size) [] h = absurd (omega arith)
take-pad (suc k) (suc size) (b ∷ bs) h = ground (arith, take-pad k size bs)

pub take-pad_short :
    (k size : ℕ) (bs : List ℕ) → size ≤ length bs → size ≤ k → take size (pad k bs) ≡ take size bs
unfolding pad
take-pad_short k zero bs h l = refl
take-pad_short zero (suc size) bs h l = absurd (omega arith)
take-pad_short (suc k) (suc size) [] h l = absurd (omega arith)
take-pad_short (suc k) (suc size) (b ∷ bs) h l = ground (arith, take-pad_short k size bs)

-- The response that starts a segmented upload of these bytes, with their number.
unfoldable pub initiate_response : ℕ → ℕ → ℕ → List ℕ → Message
initiate_response node_id index subindex bytes =
    let size = length bytes in
    response_message node_id 0x41 (
      index % 256
      ∷ index / 256
      ∷ subindex
      ∷ size % 256
      ∷ size / 2 ^ 8 % 256
      ∷ size / 2 ^ 16 % 256
      ∷ size / 2 ^ 24 % 256
      ∷ [])

-- The response that carries 1 to 4 bytes at once.
unfoldable pub expedited_response : ℕ → ℕ → ℕ → List ℕ → Message
expedited_response node_id index subindex bytes =
    response_message node_id (0x43 + (4 - length bytes) * 4)
      (index % 256 ∷ index / 256 ∷ subindex ∷ pad 4 bytes)

-- An abort of the transfer.
unfoldable pub abort_response : ℕ → ℕ → ℕ → ℕ → Message
abort_response node_id index subindex reason = response_message node_id 0x80 (
    index % 256
    ∷ index / 256
    ∷ subindex
    ∷ reason % 256
    ∷ reason / 2 ^ 8 % 256
    ∷ reason / 2 ^ 16 % 256
    ∷ reason / 2 ^ 24 % 256
    ∷ [])

abbrev pub other_toggle : ℕ → ℕ
other_toggle toggle = 0x10 - toggle

-- The segments: seven bytes each, with an alternating toggle bit; the last one is marked, and says
-- how many of its bytes are unused.
unfoldable pub segment_responses : ℕ → ℕ → ℕ → List ℕ → List Message
segment_responses zero node_id toggle bytes = []
segment_responses (suc fuel) node_id toggle bytes =
    let more = segment_responses fuel node_id (other_toggle toggle) (drop 7 bytes) in
    if leb (length bytes) 7
    then response_message node_id (toggle + (7 - length bytes) * 2 + 1) (pad 7 bytes) ∷ []
    else response_message node_id toggle (pad 7 bytes) ∷ more

pub segment_responses_last :
    (fuel node_id toggle : ℕ) (bytes : List ℕ)
    → length bytes ≤ 7
    → segment_responses (suc fuel) node_id toggle bytes
      ≡ response_message node_id (toggle + (7 - length bytes) * 2 + 1) (pad 7 bytes) ∷ []
unfolding segment_responses
segment_responses_last fuel node_id toggle bytes h = ground arith

pub segment_responses_more :
    (fuel node_id toggle : ℕ) (bytes : List ℕ)
    → 7 < length bytes
    → segment_responses (suc fuel) node_id toggle bytes
      ≡ response_message node_id toggle (pad 7 bytes)
        ∷ segment_responses fuel node_id (other_toggle toggle) (drop 7 bytes)
unfolding segment_responses
segment_responses_more fuel node_id toggle bytes h = ground arith

unfoldable pub upload_responses : ℕ → ℕ → ℕ → List ℕ → List Message
upload_responses node_id index subindex bytes =
    initiate_response node_id index subindex bytes
    ∷ segment_responses (suc (length bytes)) node_id 0 bytes

-- The windows bring these responses of node `n`, one each and in time, among any other traffic.
abbrev pub Serves : ℕ → List Message → List Window → Type 0
Serves n [] ws = Unit {0}
Serves n (m ∷ ms) [] = ⊥
Serves n (m ∷ ms) (w ∷ ws) =
    (responses_of n w.in_time ≡ m ∷ []) × (responses_of n w.late ≡ []) × Serves n ms ws

-- How a server reads an expedited download request: index, subindex and data.
unfoldable pub read_download : Message → Option (ℕ × ℕ × List ℕ)
read_download m =
    let c = data_at m 0 in
    if c / 32 == 1 && (c % 4 == 3 && m.len == 8)
    then some (
      data_at m 2 * 256 + data_at m 1,
      data_at m 3,
      take (4 - c / 4 % 4) (data_at m 4 ∷ data_at m 5 ∷ data_at m 6 ∷ data_at m 7 ∷ []),
    )
    else none
