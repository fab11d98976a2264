-- ===== src/Images/BuildLog.antt =====
-- unraid-api-plugin-incus/src/incus-image-builder.service.ts, runBuild: the log of a build. `redact` is redactBuildLogText and
-- `encode` the UTF-8 bytes of a text, `decode` the text of some bytes; they are arbitrary functions here. The pauses of the streams are left out.
use incus_unraid.Prelude.{
  ℕ, ◌+◌, ◌-◌, ◌*◌, Bool, true, false, not, ◌&&◌, ◌||◌, List, [], ◌∷◌, ◌++◌, if◌then◌else◌, ltb,
  leb, nat_beq, length, take, drop, Text, codes,
}

abbrev pub max_build_log_bytes : ℕ
max_build_log_bytes = 16 * 1024 * 1024

abbrev pub max_pending : ℕ
max_pending = 65536

abbrev pub kept_pending : ℕ
kept_pending = 512

abbrev pub marker : List ℕ
marker = codes "\n[build log truncated at 16 MiB]\n"

-- `pending` is pendingLogText; `written` the bytes that went to the stream.
pub record Log : Type 0 where
  pub pending : Text
  pub bytes : ℕ
  pub truncated : Bool
  pub written : List ℕ

abbrev pub empty_log : Log
empty_log = record { pending = []; bytes = 0; truncated = false; written = [] }

abbrev pub is_empty : Text → Bool
is_empty [] = true
is_empty (c ∷ s) = false

-- A character before a text that is cut behind its last line break
unfoldable pub cut_step : ℕ → Text × Text → Text × Text
cut_step c ([], rest) = if nat_beq c 10 then (c ∷ [], rest) else ([], c ∷ rest)
cut_step c (l ∷ lines, rest) = (c ∷ l ∷ lines, rest)

-- A text up to its last line break, and what is behind it
unfoldable pub cut_lines : Text → Text × Text
unfolding cut_step
cut_lines [] = ([], [])
cut_lines (c ∷ s) = cut_step c (cut_lines s)

-- What appendLog hands on of the text that waits, and what still waits: whole lines, and most of a line that is too long
unfoldable pub slices : Text → List Text × Text
unfolding cut_lines
slices s =
    let (lines, rest) = cut_lines s in
    let kept = length rest - kept_pending in
    if ltb max_pending (length rest)
    then (lines ∷ take kept rest ∷ [], drop kept rest)
    else (lines ∷ [], rest)

module _ (redact : Text → Text) (encode : Text → List ℕ) (decode : List ℕ → Text) where
  -- writeRedactedLog, of bytes
  unfoldable pub write_bytes : List ℕ → Log → Log
  write_bytes encoded log =
      let output = take (max_build_log_bytes - log.bytes) encoded in
      let all = record log { bytes = log.bytes + length output; written = log.written ++ output } in
      if ltb (length output) (length encoded) && not log.truncated
      then record all { truncated = true; written = all.written ++ marker }
      else all

  unfoldable pub write_redacted_log : Text → Log → Log
  unfolding write_bytes
  write_redacted_log text log =
      if leb max_build_log_bytes log.bytes || is_empty text
      then log
      else write_bytes (encode (redact text)) log

  unfoldable pub write_all : List Text → Log → Log
  unfolding write_redacted_log
  write_all [] log = log
  write_all (text ∷ texts) log = write_all texts (write_redacted_log text log)

  -- appendLog: each chunk is decoded by itself, so a character that is cut between two chunks is lost
  unfoldable pub append_log : List ℕ → Log → Log
  unfolding slices write_all
  append_log chunk log =
      let (texts, rest) = slices (log.pending ++ decode chunk) in
      record (write_all texts log) { pending = rest }

  -- The end of the log in `finish`
  unfoldable pub flush_log : Log → Log
  unfolding write_redacted_log
  flush_log log = record (write_redacted_log log.pending log) { pending = [] }

  unfoldable pub append_all : List (List ℕ) → Log → Log
  unfolding append_log
  append_all [] log = log
  append_all (chunk ∷ chunks) log = append_all chunks (append_log chunk log)
