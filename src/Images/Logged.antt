-- ===== src/Images/Logged.antt =====
-- unraid-api-plugin-incus/src/incus-image-builder.service.ts, runBuild: how long the log of a build gets, and that the output reaches
-- the redactor whole and in order, by lines.
use incus_unraid.Prelude.{
  ℕ, ◌+◌, ◌-◌, ◌≤◌, ◌<◌, true, ◌≡◌, ◌⊎◌, List, [], ◌∷◌, ◌++◌, if◌then◌else◌, length, Text,
  ends_with,
}
use incus_unraid.Images.BuildLog.{
  max_build_log_bytes, max_pending, kept_pending, marker, Log, slices,
}

-- What is handed on at once: nothing, whole lines, or most of a line that is longer than the code waits for
abbrev pub IsWhole : Text → Type 0
IsWhole s = (s ≡ []) ⊎ ((ends_with s 10 ≡ true) ⊎ (max_pending - kept_pending < length s))

abbrev pub joined : List Text → Text
joined [] = []
joined (t ∷ ts) = t ++ joined ts

-- The texts that are handed on for a list of chunks, and what waits behind the last one
unfoldable pub all_slices : Text → List Text → List Text × Text
all_slices pending [] = ([], pending)
all_slices pending (chunk ∷ chunks) =
    let (texts, rest) = slices (pending ++ chunk) in
    let (later, end) = all_slices rest chunks in (texts ++ later, end)

module _ (redact : Text → Text) (encode : Text → List ℕ) (decode : List ℕ → Text) where
  -- The log has as many bytes as are counted, and the marker once where it was cut.
  pub record Capped (log : Log) : Type 0 where
    pub few : log.bytes ≤ max_build_log_bytes
    pub counted : length log.written ≡ log.bytes + (if log.truncated then length marker else 0)
