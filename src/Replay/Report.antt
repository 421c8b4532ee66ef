-- ===== src/Replay/Report.antt =====
-- What the history and the report of internal/replay/service.go hold.
use llmapi_gate_way.Common.{
  ℕ, zero, suc, ◌≤◌, String, ◌≡◌, refl, ap, inl, inr, Bool, true, false, List, [], ◌∷◌, map, arith,
  Bool-cases, keep,
}
use llmapi_gate_way.Common.Int.{ℤ, pos, negsuc}
use llmapi_gate_way.Common.Float.{Float64}
use llmapi_gate_way.Common.Result.{Result, done, failed, Result-cases}
use llmapi_gate_way.Handler.Gateway.{HttpResponse}
use llmapi_gate_way.Replay.Types.{RequestMetadata, HistoryFilter}
use llmapi_gate_way.Replay.Service.{
  matches_filter, limit_of, read_messages, fetch_history, ReplayRequest, ReplayReadings, Client,
  request_of,
}
use llmapi_gate_way.Replay.Run.{
  read_replay, receive_replay, replay_one, report_entry, replay_all, replay,
}

abbrev pub take {ℓ} : {A : Type ℓ} → List A → ℕ → List A
take xs zero = []
take [] (suc n) = []
take (x ∷ xs) (suc n) = x ∷ take xs n

-- The records that the messages hold, without those that do not decode.
abbrev pub decoded_one : Result String RequestMetadata → List RequestMetadata → List RequestMetadata
decoded_one (failed e) rest = rest
decoded_one (done meta) rest = meta ∷ rest

unfoldable pub decoded :
    (String → Result String RequestMetadata) → List String → List RequestMetadata
decoded unmarshal [] = []
decoded unmarshal (message ∷ rest) = decoded_one (unmarshal message) (decoded unmarshal rest)

module _ {A : Type 0} (p : A → Bool) (x : A) (xs : List A) where
  keep-true : p x ≡ true → keep p (x ∷ xs) ≡ x ∷ keep p xs
  keep-true h = rw (h, keep) refl

  keep-false : p x ≡ false → keep p (x ∷ xs) ≡ keep p xs
  keep-false h = rw (h, keep) refl

limit_of-bounds : (limit : ℤ) → (1 ≤ limit_of limit) × (limit_of limit ≤ 1000)
unfolding limit_of
limit_of-bounds (pos n) = (ground arith, ground arith)
limit_of-bounds (negsuc n) = (ground arith, ground arith)

read_messages-take :
    (unmarshal : String → Result String RequestMetadata) (filter : HistoryFilter) (room : ℕ)
    (messages : List String)
    → read_messages unmarshal filter room messages
      ≡ take (keep (λ meta. matches_filter meta filter) (decoded unmarshal messages)) room
unfolding read_messages decoded
read_messages-take unmarshal filter zero messages = refl
read_messages-take unmarshal filter (suc room) [] = refl
read_messages-take unmarshal filter (suc room) (message ∷ rest) =
    elim (Result-cases (unmarshal message)) [
      | inr (e, bad) ↦ rw (bad, read_messages) (read_messages-take unmarshal filter (suc room) rest)
      | inl (meta, good) ↦ elim (Bool-cases (matches_filter meta filter)) [
        | inl wanted ↦
            rw (good, read_messages, wanted, keep-true _ meta (decoded unmarshal rest) wanted)
              (ap (λ ms. meta ∷ ms) (read_messages-take unmarshal filter room rest))
        | inr unwanted ↦
            rw (good, read_messages, unwanted, keep-false _ meta (decoded unmarshal rest) unwanted)
              (read_messages-take unmarshal filter (suc room) rest)
      ]
    ]

-- The history is the first records that match the filter, in the order of the topic, as many as the
-- limit allows; the limit is between 1 and 1000.
pub fetch_history-take :
    (unmarshal : String → Result String RequestMetadata) (filter : HistoryFilter)
    (messages : List String)
    → (fetch_history unmarshal filter messages
        ≡ take
            (keep (λ meta. matches_filter meta filter) (decoded unmarshal messages))
            (limit_of filter.limit))
      × ((1 ≤ limit_of filter.limit) × (limit_of filter.limit ≤ 1000))
unfolding fetch_history
fetch_history-take unmarshal filter messages = (
  read_messages-take unmarshal filter (limit_of filter.limit) messages,
  limit_of-bounds filter.limit,
)

module _ (fl : Float64) {S B : Type 0} (client : Client S B) where
  read_replay-original :
      (original : RequestMetadata) (req : ReplayRequest) (readings : ReplayReadings) (status : ℤ)
      (r : S × Result String String)
      → (report_entry fl client original readings
          (read_replay fl client original req readings status r).1).original
        ≡ original
  read_replay-original original req readings status (s, failed e) = refl
  read_replay-original original req readings status (s, done body) = refl

  receive_replay-original :
      (original : RequestMetadata) (req : ReplayRequest) (readings : ReplayReadings)
      (r : S × Result String (HttpResponse B))
      → (report_entry fl client original readings
          (receive_replay fl client original req readings r).1).original
        ≡ original
  receive_replay-original original req readings (s, failed e) = refl
  receive_replay-original original req readings (s, done resp) =
      read_replay-original original req readings resp.status_code (client.read_all resp.body s)

  replay_one-original :
      (original : RequestMetadata) (req : ReplayRequest) (readings : ReplayReadings) (s : S)
      → (report_entry fl client original readings
          (replay_one fl client original req readings s).1).original
        ≡ original
  unfolding replay_one
  replay_one-original original req readings s =
      elim (Result-cases (request_of client original req)) [
        | inr (e, bad) ↦ rw (bad, replay_one) refl
        | inl (http_req, good) ↦
            rw (good, replay_one)
              (receive_replay-original original req readings (client.send http_req s))
      ]

  replay_all-original :
      (req : ReplayRequest) (records : List RequestMetadata) (readings : ℕ → ReplayReadings) (s : S)
      → map (λ r. r.original) (replay_all fl client req records readings s).1 ≡ records
  unfolding replay_all
  replay_all-original req [] readings s = refl
  replay_all-original req (original ∷ rest) readings s =
      rw
        (
          replay_one-original original req (readings zero) s,
          replay_all-original req rest (λ i. readings (suc i))
              (replay_one fl client original req (readings zero) s).0,
        )
        refl

  -- The report has one entry for each record of the history, in its order, whatever fails.
  pub replay-original :
      (unmarshal : String → Result String RequestMetadata) (req : ReplayRequest)
      (messages : List String) (readings : ℕ → ReplayReadings) (s : S)
      → map (λ r. r.original) (replay fl client unmarshal req messages readings s).1
        ≡ fetch_history unmarshal req.filter messages
  unfolding replay
  replay-original unmarshal req messages readings s =
      replay_all-original req (fetch_history unmarshal req.filter messages) readings s
