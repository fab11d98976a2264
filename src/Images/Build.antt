-- ===== src/Images/Build.antt =====
-- unraid-api-plugin-incus/src/incus-image-builder.service.ts, runBuild: the events of the child process, its timers and its log.
use incus_unraid.Prelude.{
  decimal, ℕ, zero, ◌+◌, Bool, true, false, Option, none, some, List, [], ◌∷◌, ◌++◌, if◌then◌else◌,
  Text, codes,
}
use incus_unraid.Images.BuildLog.{Log, empty_log, append_log, flush_log}

pub data Status : Type 0 where
  running success failed : Status

pub data Signal : Type 0 where
  sigterm sigkill : Signal

-- A build that runs. `timeout`, `kill_timer` and `hard_timer` say which timers are set, `listening` whether the output of the
-- child still goes to appendLog, `recording` whether `finish` waits for recordImageBuilt, `resolved` how often the promise
-- was resolved and `signals` what the process group was sent.
pub record Build : Type 0 where
  pub status : Status
  pub error : Option Text
  pub finished_at : Option ℕ
  pub settled : Bool
  pub forced_error : Option Text
  pub timeout : Bool
  pub kill_timer : Bool
  pub hard_timer : Bool
  pub listening : Bool
  pub recording : Bool
  pub resolved : ℕ
  pub signals : List Signal
  pub log : Log

abbrev pub started : Build
started = record {
  status = running;
  error = none;
  finished_at = none;
  settled = false;
  forced_error = none;
  timeout = true;
  kill_timer = false;
  hard_timer = false;
  listening = true;
  recording = false;
  resolved = 0;
  signals = [];
  log = empty_log;
}

-- What stands behind the `await` of `finish`, or is reached without it
abbrev pub resolve : ℕ → Build → Build
resolve now b = record b { finished_at = some now; resolved = b.resolved + 1; recording = false }

abbrev pub fail : ℕ → Text → Build → Build
fail now message b = resolve now (record b { status = failed; error = some message })

-- A code of the child, `null` where a signal ended it
abbrev pub show_code : Option ℕ → Text
show_code none = codes "null"
show_code (some n) = decimal n

abbrev exited : Text → Text
exited code = codes "distrobuilder exited with code " ++ code

-- error ?? forcedError
abbrev pub failure_of : Option Text → Option Text → Option Text
failure_of none forced = forced
failure_of (some error) forced = some error

-- The choice of `finish` by the failure and the code
unfoldable pub conclude : ℕ → Option ℕ → Option Text → Build → Build
conclude now code (some message) b = fail now message b
conclude now (some zero) none b = record b { status = success; recording = true }
conclude now code none b = fail now (exited (show_code code)) b

-- What happens to a build: the exit code and the outcome of recordImageBuilt are those of the surroundings, and a timer that
-- is not set does not fire.
pub data Event : Type 0 where
  chunk : List ℕ → Event
  timeout_fires kill_fires : Event
  hard_fires : ℕ → Event
  log_fails child_fails : ℕ → Text → Event
  child_closes : ℕ → Option ℕ → Event
  recorded : ℕ → Option Text → Event

module _ (redact : Text → Text) (encode : Text → List ℕ) (decode : List ℕ → Text) where
  -- `finish` up to its choice: no timer is left, the output is no longer read, and what waits of it is written
  abbrev pub stopped : Build → Build
  stopped b = record b {
    settled = true;
    timeout = false;
    kill_timer = false;
    hard_timer = false;
    listening = false;
    log = flush_log redact encode decode b.log;
  }

  unfoldable pub finish : ℕ → Option ℕ → Option Text → Build → Build
  unfolding conclude
  finish now code error b =
      if b.settled then b else conclude now code (failure_of error b.forced_error) (stopped b)

  unfoldable pub step : Event → Build → Build
  unfolding finish append_log
  step (chunk bytes) b =
      if b.listening then record b { log = append_log redact encode decode bytes b.log } else b
  step timeout_fires b =
      if b.timeout
      then record b {
        timeout = false;
        kill_timer = true;
        forced_error = some (codes "Image build exceeded the 60 minute limit");
        signals = sigterm ∷ b.signals;
      }
      else b
  step kill_fires b =
      if b.kill_timer
      then record b { kill_timer = false; hard_timer = true; signals = sigkill ∷ b.signals }
      else b
  step (hard_fires now) b =
      if b.hard_timer then finish now none b.forced_error (record b { hard_timer = false }) else b
  step (log_fails now message) b =
      let text = codes "Unable to write image build log: " ++ message in
      finish now none (some text)
        (record b { forced_error = some text; signals = sigkill ∷ b.signals })
  step (child_fails now message) b = finish now none (some message) b
  step (child_closes now code) b = finish now code none b
  step (recorded now outcome) b =
      if b.recording
      then elim outcome [
        | none ↦ resolve now b
        | some message ↦ fail now (codes "Image imported but registry update failed: " ++ message) b
      ]
      else b

  unfoldable pub run : List Event → Build → Build
  unfolding step
  run [] b = b
  run (e ∷ es) b = run es (step e b)
