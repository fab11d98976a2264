-- ===== src/Tests/Exec.antt =====
-- The theorems on incus-exec.service.ts at concrete inputs.
use incus_unraid.Prelude.{
  ◌≡◌, ◌≤◌, ◌<◌, ◌⊎◌, refl, none, some, Assoc, lookup, length, ℕ, codes, [], ◌∷◌, nat_eq, arith,
}
use incus_unraid.Exec.Sessions.{
  State, initial, start, start_connected, started, connected, then_, start_,
}
use incus_unraid.Exec.Leaks.Owned.{Inv}
use incus_unraid.Exec.Leaks.Steps.{Reachable-Inv}
use incus_unraid.Exec.Jobs.{
  PrivilegedCommandJob, running, start_privileged_command, max_command, max_jobs,
}
use incus_unraid.Exec.Jobs.Evicted.{start_privileged_command_lem}

abbrev begun : State
begun = record initial { pending_sessions = 1 }

Reachable-Inv_example : Inv (start_connected 7 begun)
unfolding start lookup
Reachable-Inv_example = Reachable-Inv (start_connected 7 begun) (
    then_ begun (start_connected 7 begun)
      (then_ initial begun start_ (started 80 24 initial begun refl))
      (connected 7 begun (omega arith) refl))

abbrev job : PrivilegedCommandJob
job = record {
  jail_name = codes "dev";
  command = codes "ls";
  status = running;
  exit_code = none;
  stdout = none;
  stderr = none;
  message = [];
}

abbrev jobs : Assoc ℕ PrivilegedCommandJob
jobs = (3, job) ∷ (4, job) ∷ []

start_privileged_command_lem_example :
    ((length (codes "ls") ≤ max_command)
      × ((jobs' : Assoc ℕ PrivilegedCommandJob) × (started_job : PrivilegedCommandJob)
          × (start_privileged_command 9 (codes "dev") (codes "ls") jobs ≡ some jobs')
          × (length jobs' ≤ max_jobs)
          × (lookup 9 jobs' ≡ some started_job)
          × (started_job.status ≡ running)))
    ⊎ ((max_command < length (codes "ls"))
        × (start_privileged_command 9 (codes "dev") (codes "ls") jobs ≡ none))
start_privileged_command_lem_example =
    start_privileged_command_lem 9 (codes "dev") (codes "ls") jobs
