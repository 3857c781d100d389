-- ===== src/Sdo/Runs.antt =====
-- The theorems of the SDO client at concrete inputs.
use kacanopen.Prelude.{◌⊎◌, ℕ, ◌≡◌, refl, some, List, [], ◌∷◌, arith}
use kacanopen.Error.{out_of_fuel, ok, err, sdo_error, future_error, of_sdo_data}
use kacanopen.Message.{Message, get_node_id, get_function_code}
use kacanopen.Core.Routing.{target, target_of_code}
use kacanopen.Sdo.{Window, unassigned, idle_receivers, upload, download, send_sdo_and_wait, request}
use kacanopen.Sdo.Exchange.{bus, exchange, IsIdle, send_sdo_and_wait-exchange}
use kacanopen.Sdo.Receivers.{settle, responses_of, response_message}
use kacanopen.Sdo.Server.{
  expedited_response, Serves, pad, upload_responses, abort_response, initiate_response,
  segment_responses, read_download,
}
use kacanopen.Sdo.Upload.{upload_served}
use kacanopen.Sdo.Cases.{upload_aborted, upload_expedited}
use kacanopen.Sdo.Download.{download_served, verdict}
use kacanopen.Sdo.Termination.{upload-ne-out_of_fuel}

idle : (k : ℕ) → idle_receivers k ≡ unassigned
unfolding idle_receivers
idle k = refl

-- A heartbeat of node 9 and a response of node 9.
abbrev noise : List Message
noise =
    record { cob_id = 0x709; rtr = 0; len = 1; payload = 5 ∷ 0 ∷ 0 ∷ 0 ∷ 0 ∷ 0 ∷ 0 ∷ 0 ∷ [] }
    ∷ response_message 9 0x60 (0 ∷ 0 ∷ 0 ∷ 0 ∷ 0 ∷ 0 ∷ 0 ∷ [])
    ∷ []

abbrev in_windows : List Message → List Window
in_windows [] = []
in_windows (m ∷ ms) = record { in_time = m ∷ noise; late = noise } ∷ in_windows ms

abbrev nine : List ℕ
nine = 1 ∷ 2 ∷ 3 ∷ 4 ∷ 5 ∷ 6 ∷ 7 ∷ 8 ∷ 9 ∷ []

nine_served :
    Serves 5 (upload_responses 5 0x1008 0 nine) (in_windows (upload_responses 5 0x1008 0 nine))
unfolding upload_responses initiate_response segment_responses responses_of target target_of_code
    get_function_code get_node_id pad
nine_served = (refl, refl, (refl, refl, (refl, refl, tt)))

upload_served_example :
    (upload 5 0x1008 0 (bus [] (in_windows (upload_responses 5 0x1008 0 nine)) idle_receivers)).0
    ≡ ok nine
upload_served_example =
    upload_served 5 0x1008 0 nine [] (in_windows (upload_responses 5 0x1008 0 nine)) idle_receivers
      idle (omega arith) nine_served

abbrev four_windows : List Window
four_windows = in_windows (expedited_response 5 0x1000 0 (0x92 ∷ 0x01 ∷ 0x02 ∷ []) ∷ [])

upload_expedited_example :
    (upload 5 0x1000 0 (bus [] four_windows idle_receivers)).0 ≡ ok (0x92 ∷ 0x01 ∷ 0x02 ∷ [])
unfolding responses_of target target_of_code get_function_code get_node_id expedited_response
upload_expedited_example =
    upload_expedited 5 0x1000 0 (0x92 ∷ 0x01 ∷ 0x02 ∷ []) [] four_windows idle_receivers idle
      (omega arith) (omega arith) (refl, refl, tt)

upload_aborted_example :
    (upload 5 0x1000 0
      (bus [] (in_windows (abort_response 5 0x1000 0 0x06020000 ∷ [])) idle_receivers)).0
    ≡ err (sdo_error (of_sdo_data 0x06020000))
unfolding responses_of target target_of_code get_function_code get_node_id abort_response
upload_aborted_example =
    upload_aborted 5 0x1000 0 0x06020000 [] (in_windows (abort_response 5 0x1000 0 0x06020000 ∷ []))
      idle_receivers idle (omega arith) (refl, refl, tt)

abbrev confirmed : Message
confirmed = response_message 5 0x60 (0x40 ∷ 0x60 ∷ 0 ∷ 0 ∷ 0 ∷ 0 ∷ 0 ∷ [])

download_served_example :
    let (r, b') =
      download 5 0x6040 0 2
        (0x0F ∷ 0x00 ∷ [])
        (bus [] (in_windows (confirmed ∷ [])) idle_receivers) in
    (r ≡ verdict confirmed)
    × (q : Message) × (b'.sent ≡ q ∷ [])
    × (q.cob_id ≡ 0x605)
    × (read_download q ≡ some (0x6040, 0, 0x0F ∷ 0x00 ∷ []))
unfolding responses_of target target_of_code get_function_code get_node_id
download_served_example =
    download_served 5 0x6040 0 2 (0x0F ∷ 0x00 ∷ []) confirmed [] (in_windows (confirmed ∷ []))
      idle_receivers idle (omega arith) (omega arith) (omega arith) (omega arith) (refl, refl, tt)

-- Two responses to one request bring the receiving thread down.
abbrev doubled : Window
doubled = record { in_time = confirmed ∷ noise; late = confirmed ∷ [] }

send_sdo_and_wait-exchange_example :
    let (r, b') =
      send_sdo_and_wait 0x40 5 0x1000 0
        (0 ∷ 0 ∷ 0 ∷ 0 ∷ [])
        (bus [] (doubled ∷ []) idle_receivers) in
    (r ≡ err future_error)
    × (b'.sent ≡ request 0x40 5 0x1000 0 (0 ∷ 0 ∷ 0 ∷ 0 ∷ []) ∷ [])
    × ((r ≡ err future_error) ⊎ (IsIdle b' × (b'.windows ≡ [])))
unfolding exchange settle responses_of target target_of_code get_function_code get_node_id
send_sdo_and_wait-exchange_example =
    send_sdo_and_wait-exchange [] doubled [] idle_receivers 0x40 5 0x1000 0 (0 ∷ 0 ∷ 0 ∷ 0 ∷ [])
      idle

upload-ne-out_of_fuel_example :
    (upload 5 0x1000 0 (bus [] (doubled ∷ []) idle_receivers)).0 ≡ err out_of_fuel → ⊥
upload-ne-out_of_fuel_example =
    upload-ne-out_of_fuel 5 0x1000 0 (bus [] (doubled ∷ []) idle_receivers)
