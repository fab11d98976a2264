-- ===== src/UnixClient/Requests.antt =====
-- unraid-api-plugin-incus/src/incus-unix-client.service.ts: the calls built on `requestRaw`, over a
-- socket whose other end is a parameter.
use incus_unraid.Prelude.{
  ℕ, ◌+◌, ◌*◌, Bool, true, false, Option, none, some, List, [], ◌∷◌, leb, if◌then◌else◌, Text,
  codes, eq_text,
}
use incus_unraid.Json.{Json, null, string, object, empty, get, get?, text_of}
use incus_unraid.UnixClient.Exchange.{
  Event, Outcome, RawResponse, api, default_max_response_bytes, hangs, http, idle, operation_failed,
  parse_error, run_events, throws, type_error, value,
}

pub record Request : Type 0 where
  pub method : Text
  pub path : Text
  pub body : Option Json
  pub timeout_ms : ℕ

pub record IncusResponse : Type 0 where
  pub type : Option Text
  pub operation : Option Text
  pub error : Option Text
  pub json : Json

-- The daemon's end of the socket: what it does with a request, and the events that come back.
pub record Socket (W : Type 0) : Type 0 where
  pub send : Request → W → List Event × W
  pub decode : List ℕ → Text
  pub json_parse : Text → Option Json
  -- the path of `/wait` for an operation
  pub wait_path : Text → ℕ → Text

module _ {W : Type 0} (s : Socket W) where
  unfoldable pub request_raw : Request → ℕ → Bool → W → Outcome RawResponse × W
  request_raw r max_bytes truncate w =
      let (events, w') = s.send r w in
      ((run_events s.decode max_bytes truncate events idle).settled, w')

  abbrev pub http_ok : RawResponse → Outcome RawResponse
  http_ok r = if leb 400 r.status_code then throws (http r.status_code) else value r

  -- requestTextTruncated
  unfoldable pub request_text_truncated : Request → ℕ → W → Outcome (Text × Bool) × W
  request_text_truncated r max_bytes w =
      let (o, w') = request_raw r max_bytes true w in
      (
        elim o [
          | value raw ↦
              if leb 400 raw.status_code
              then throws (http raw.status_code)
              else value (raw.text, raw.truncated)
          | throws e ↦ throws e
          | hangs ↦ hangs
        ],
        w',
      )

  -- requestText
  unfoldable pub request_text : Request → ℕ → W → Outcome Text × W
  request_text r max_bytes w =
      let (o, w') = request_raw r max_bytes false w in
      (
        elim o [
          | value raw ↦
              if leb 400 raw.status_code then throws (http raw.status_code) else value raw.text
          | throws e ↦ throws e
          | hangs ↦ hangs
        ],
        w',
      )

  -- An empty text is the empty object; a `null` has no property to read.
  unfoldable pub read_json : ℕ → Text → Outcome Json
  read_json status [] = value (object empty)
  read_json status (c ∷ text) = elim (s.json_parse (c ∷ text)) [
    | none ↦ if leb 400 status then throws (http status) else throws parse_error
    | some null ↦ throws type_error
    | some json ↦ value json
  ]

  abbrev pub response_of : Json → IncusResponse
  response_of json = record {
    type = text_of (get (codes "type") json);
    operation = text_of (get (codes "operation") json);
    error = text_of (get (codes "error") json);
    json = json;
  }

  unfoldable pub is_error : IncusResponse → Bool
  unfolding eq_text
  is_error r = elim r.type [ none ↦ false | some t ↦ eq_text t (codes "error") ]

  unfoldable pub check : ℕ → Json → Outcome IncusResponse
  check status json =
      let r = response_of json in
      if is_error r
      then throws (api r.error)
      else if leb 400 status
      then throws (http status)
      else value r

  unfoldable pub read_response : RawResponse → Outcome IncusResponse
  read_response raw = elim (read_json raw.status_code raw.text) [
    | value json ↦ check raw.status_code json
    | throws e ↦ throws e
    | hangs ↦ hangs
  ]

  unfoldable pub request : Request → W → Outcome IncusResponse × W
  request r w =
      let (o, w') = request_raw r default_max_response_bytes false w in
      (elim o [ value raw ↦ read_response raw | throws e ↦ throws e | hangs ↦ hangs ], w')

  -- metadata?.status === "Failure"
  unfoldable pub failure : IncusResponse → Bool
  unfolding eq_text
  failure r = elim (get? (codes "status") (get (codes "metadata") r.json)) [
    | some (string status) ↦ eq_text status (codes "Failure")
    | _ ↦ false
  ]

  unfoldable pub wait : Text → ℕ → W → Outcome IncusResponse × W
  wait operation timeout_sec w =
      let get_wait : Request = record {
        method = codes "GET";
        path = s.wait_path operation timeout_sec;
        body = none;
        timeout_ms = (timeout_sec + 10) * 1000;
      } in
      let (o, w') = request get_wait w in
      (
        elim o [
          | value r ↦
              if failure r
              then throws
                  (operation_failed (text_of (get? (codes "err") (get (codes "metadata") r.json))))
              else value r
          | throws e ↦ throws e
          | hangs ↦ hangs
        ],
        w',
      )

  -- The operation to wait for: `response.type === "async" && response.operation`.
  unfoldable pub pending : IncusResponse → Option Text
  unfolding eq_text
  pending r = elim r.type [
    | none ↦ none
    | some t ↦
        if eq_text t (codes "async")
        then elim r.operation [ none ↦ none | some [] ↦ none | some (c ∷ o) ↦ some (c ∷ o) ]
        else none
  ]

  unfoldable pub request_and_wait : Request → ℕ → W → Outcome IncusResponse × W
  request_and_wait r timeout_sec w =
      let (o, w') = request r w in
      elim o [
        | throws e ↦ (throws e, w')
        | hangs ↦ (hangs, w')
        | value response ↦ elim (pending response) [
          | none ↦ (value response, w')
          | some operation ↦
              let (waited, w'') = wait operation timeout_sec w' in
              (elim waited [ value _ ↦ value response | throws e ↦ throws e | hangs ↦ hangs ], w'')
        ]
      ]
