-- ===== src/Tests/Client.antt =====
-- The theorems on incus-unix-client.service.ts at concrete inputs.
use incus_unraid.Prelude.{◌<◌, ◌≡◌, ◌⊎◌, true, false, some, List, [], ◌∷◌, ℕ, Text, codes}
use incus_unraid.Json.{Json, object, field, empty, string}
use incus_unraid.UnixClient.Exchange.{
  Error, value, throws, data_, ended, idle, run_events, RawResponse,
}
use incus_unraid.UnixClient.Requests.{IncusResponse, Socket, response_of, read_response, is_error}
use incus_unraid.UnixClient.Collected.{reply, run_events-cut}
use incus_unraid.UnixClient.Errors.{IsRefused, Says, read_response-accepts}

abbrev decode : List ℕ → Text
decode bytes = bytes

run_events-cut_example :
    (run_events decode 3 true
      (reply decode 3 ((1 ∷ 2 ∷ []) ∷ (3 ∷ 4 ∷ []) ∷ []) (some 200))
      idle).settled
    ≡ value (record { status_code = 200; text = 1 ∷ 2 ∷ 3 ∷ []; truncated = true })
run_events-cut_example = run_events-cut decode 3 ((1 ∷ 2 ∷ []) ∷ (3 ∷ 4 ∷ []) ∷ []) (some 200)

-- A daemon that answers every request with the same text, and a parser that reads it.
abbrev answer : Json
answer = object (field (codes "type") (string (codes "sync")) empty)

abbrev daemon : Socket Unit
daemon = record {
  send = λ r w. (data_ (codes "{}") ∷ ended (some 200) ∷ [], w);
  decode = decode;
  json_parse = λ text. some answer;
  wait_path = λ operation seconds. operation;
}

abbrev raw : RawResponse
raw = record { status_code = 200; text = codes "{}"; truncated = false }

read_response-accepts_example :
    ((r : IncusResponse) × (json : Json) × (read_response daemon raw ≡ value r)
      × (raw.status_code < 400)
      × (is_error daemon r ≡ false)
      × (r ≡ response_of daemon json)
      × Says daemon raw.text json)
    ⊎ ((e : Error) × (read_response daemon raw ≡ throws e) × IsRefused daemon raw)
read_response-accepts_example = read_response-accepts daemon raw
