-- ===== src/Exec/RunOnce.antt =====
-- unraid-api-plugin-incus/src/incus-exec.service.ts: one command in a container, with its exit code
-- and its output.
use incus_unraid.Prelude.{
  nat_eq, ℕ, ◌*◌, Bool, false, Option, none, some, List, [], ◌∷◌, ◌++◌, Text, codes, nat_beq,
  if◌then◌else◌,
}
use incus_unraid.Json.{Json, ℤ, pos, negsuc, get, get?, text_of, int_of}
use incus_unraid.UnixClient.Exchange.{Outcome, value, throws, hangs, Error, said}
use incus_unraid.UnixClient.Requests.{
  Request, IncusResponse, Socket, request, wait, request_text, request_text_truncated,
}

abbrev pub max_capture_bytes : ℕ
max_capture_bytes = 256 * 1024

-- What `runOnce` returns.
pub record RunResult : Type 0 where
  pub exit_code : ℤ
  pub stdout : Option Text
  pub stderr : Option Text

abbrev pub is_zero : ℤ → Bool
is_zero (pos n) = nat_beq n 0
is_zero (negsuc n) = false

-- The body of `exec` for a command, the path of an instance, and the texts of numbers and of errors.
pub record Texts : Type 0 where
  pub exec_path : Text → Text
  pub exec_body : List Text → Bool → Json
  pub show : ℤ → Text
  pub error_message : Error → Text

module _ {W : Type 0} (s : Socket W) (t : Texts) where
  -- fetchAndDeleteLog: the log is deleted whatever the fetch comes to, and the deletion's outcome is ignored
  unfoldable pub fetch_and_delete_log : Text → W → Outcome Text × W
  fetch_and_delete_log log_path w =
      let fetch : Request = record {
        method = codes "GET";
        path = log_path;
        body = none;
        timeout_ms = 15000;
      } in
      let remove : Request = record {
        method = codes "DELETE";
        path = log_path;
        body = none;
        timeout_ms = 15000;
      } in
      let (fetched, w') = request_text_truncated s fetch max_capture_bytes w in
      elim fetched [
        | hangs ↦ (hangs, w')
        | throws e ↦
            let (removed, w'') = request_text s remove (16 * 1024) w' in
            (elim removed [ hangs ↦ hangs | _ ↦ throws e ], w'')
        | value (text, truncated) ↦
            let (removed, w'') = request_text s remove (16 * 1024) w' in
            (
              elim removed [
                | hangs ↦ hangs
                | _ ↦ value (if truncated then text ++ codes "\n[truncated]" else text)
              ],
              w'',
            )
      ]

  -- output?.[fd] ? fetchAndDeleteLog(output[fd]) : undefined
  unfoldable pub fetch_output : Text → Option Json → W → Outcome (Option Text) × W
  fetch_output fd output w = elim (text_of (get? fd output)) [
    | none ↦ (value none, w)
    | some [] ↦ (value none, w)
    | some (c ∷ path) ↦
        let (o, w') = fetch_and_delete_log (c ∷ path) w in
        (elim o [ value text ↦ value (some text) | throws e ↦ throws e | hangs ↦ hangs ], w')
  ]

  -- metadata?.metadata of the finished operation
  abbrev operation_metadata : IncusResponse → Option Json
  operation_metadata r = get? (codes "metadata") (get (codes "metadata") r.json)

  abbrev exit_code_of : IncusResponse → ℤ
  exit_code_of r = elim (int_of (get? (codes "return") (operation_metadata r))) [
    | some code ↦ code
    | none ↦ negsuc 0
  ]

  -- runOnce; the two logs are fetched one after the other
  unfoldable pub capture : IncusResponse → W → Outcome RunResult × W
  capture r w =
      let output = get? (codes "output") (operation_metadata r) in
      let (out, w') = fetch_output (codes "1") output w in
      let (err, w'') = fetch_output (codes "2") output w' in
      (
        elim out [
          | throws e ↦ throws e
          | hangs ↦ elim err [ throws e ↦ throws e | _ ↦ hangs ]
          | value stdout ↦ elim err [
            | throws e ↦ throws e
            | hangs ↦ hangs
            | value stderr ↦
                value (record { exit_code = exit_code_of r; stdout = stdout; stderr = stderr })
          ]
        ],
        w'',
      )

  unfoldable pub run_once : Text → List Text → ℕ → Bool → W → Outcome RunResult × W
  run_once jail_name command timeout_sec capture_output w =
      let exec : Request = record {
        method = codes "POST";
        path = t.exec_path jail_name;
        body = some (t.exec_body command capture_output);
        timeout_ms = 15000;
      } in
      let (posted, w') = request s exec w in
      elim posted [
        | throws e ↦ (throws e, w')
        | hangs ↦ (hangs, w')
        | value response ↦ elim response.operation [
          | none ↦ (throws (said (codes "Incus exec did not return an operation")), w')
          | some [] ↦ (throws (said (codes "Incus exec did not return an operation")), w')
          | some (c ∷ operation) ↦
              let (waited, w'') = wait s (c ∷ operation) timeout_sec w' in
              elim waited [
                | throws e ↦ (throws e, w'')
                | hangs ↦ (hangs, w'')
                | value r ↦ if capture_output then capture r w'' else (
                  value (record { exit_code = exit_code_of r; stdout = none; stderr = none }),
                  w'',
                )
              ]
        ]
      ]
