-- ===== src/Exec/Jobs.antt =====
-- unraid-api-plugin-incus/src/incus-exec.service.ts: the tables of background jobs.
pub mod Evicted
use incus_unraid.Prelude.{
  is_alnum, nat_eq, ℕ, ◌+◌, ◌*◌, Bool, true, false, ◌&&◌, ◌||◌, not, Option, none, some, List, [],
  ◌∷◌, ◌++◌, map, Text, codes, eq_text, starts_with, has_char, every, Assoc, lookup, insert, delete,
  length, leb, ltb, nat_beq, if◌then◌else◌,
}
use incus_unraid.Json.{Json, ℤ, pos, negsuc, boolean, get, get?, text_of, int_of}
use incus_unraid.UnixClient.Exchange.{Outcome, value, throws, hangs, Error, said}
use incus_unraid.UnixClient.Requests.{
  Request, IncusResponse, Socket, request, wait, request_text, request_text_truncated,
}

abbrev pub max_jobs : ℕ
max_jobs = 100

pub data JobStatus : Type 0 where
  running success failed : JobStatus

pub record HomebrewInstallJob : Type 0 where
  pub jail_name : Text
  pub formula : Text
  pub status : JobStatus
  pub message : Text

pub record PrivilegedCommandJob : Type 0 where
  pub jail_name : Text
  pub command : Text
  pub status : JobStatus
  pub exit_code : Option ℤ
  pub stdout : Option Text
  pub stderr : Option Text
  pub message : Text

-- pruneJobs: the oldest jobs go until there is room for one; `while` on a table that shrinks
unfoldable pub prune_jobs : {A : Type 0} → Assoc ℕ A → Assoc ℕ A
prune_jobs [] = []
prune_jobs (job ∷ jobs) =
    let rest = prune_jobs jobs in if leb max_jobs (length (job ∷ jobs)) then rest else job ∷ jobs

-- [a-zA-Z0-9._@/-]
abbrev pub is_formula_char : ℕ → Bool
is_formula_char c =
    is_alnum c || nat_beq c 46 || nat_beq c 95 || nat_beq c 64 || nat_beq c 47 || nat_beq c 45

-- HOMEBREW_FORMULA_PATTERN
unfoldable pub is_formula : Text → Bool
is_formula [] = false
is_formula (c ∷ cs) = is_alnum c && every is_formula_char cs

-- startHomebrewInstall: the table, and whether the install runs in the background
unfoldable pub start_homebrew_install :
    ℕ → Text → Text → Assoc ℕ HomebrewInstallJob → Bool × Assoc ℕ HomebrewInstallJob
start_homebrew_install id jail_name formula jobs =
    let jobs = prune_jobs jobs in
    if not (is_formula formula)
    then (
      false,
      insert id
          (record {
            jail_name = jail_name;
            formula = formula;
            status = failed;
            message =
                codes "\""
                ++ formula
                ++ codes "\" doesn't look like a valid Homebrew formula name.";
          })
          jobs,
    )
    else (
      true,
      insert id
          (record {
            jail_name = jail_name;
            formula = formula;
            status = running;
            message = codes "Installing…";
          })
          jobs,
    )

-- command.length > 16_384
abbrev pub max_command : ℕ
max_command = 16384

-- startPrivilegedCommand: `none` where it throws
unfoldable pub start_privileged_command :
    ℕ → Text → Text → Assoc ℕ PrivilegedCommandJob → Option (Assoc ℕ PrivilegedCommandJob)
start_privileged_command id jail_name command jobs =
    if ltb max_command (length command)
    then none
    else some (
        insert id
          (record {
            jail_name = jail_name;
            command = command;
            status = running;
            exit_code = none;
            stdout = none;
            stderr = none;
            message = codes "Running…";
          })
          (prune_jobs jobs))
