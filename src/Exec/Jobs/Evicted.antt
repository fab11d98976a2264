-- ===== src/Exec/Jobs/Evicted.antt =====
-- unraid-api-plugin-incus/src/incus-exec.service.ts: the size of a table of jobs.
use incus_unraid.Prelude.{
  nat_eq, ℕ, suc, ◌≤◌, ◌<◌, true, ◌≡◌, refl, ◌⊎◌, inl, inr, none, some, [], ◌∷◌, Text, codes, Assoc,
  lookup, insert, length, leb, ltb, lookup-insert, length-insert, Bool-cases, nat_beq, ◌∙◌, ap,
  drop, arith,
}
use incus_unraid.Exec.Jobs.{
  max_jobs, prune_jobs, PrivilegedCommandJob, start_privileged_command, max_command, running,
}

-- Pruning leaves fewer than a hundred jobs: the table without its first n jobs, where n is 0 or just
-- ninety-nine are left.
pub prune_jobs_lem :
    {A : Type 0} (jobs : Assoc ℕ A)
    → (length (prune_jobs jobs) < max_jobs)
      × ((n : ℕ) × (prune_jobs jobs ≡ drop n jobs)
          × ((n ≡ 0) ⊎ (suc (length (prune_jobs jobs)) ≡ max_jobs)))
unfolding prune_jobs
prune_jobs_lem [] = (omega arith, (0, refl, inl refl))
prune_jobs_lem (job ∷ jobs) = elim (Bool-cases (leb max_jobs (length (job ∷ jobs)))) [
  | inr e ↦ rw e (ground arith, (0, refl, inl refl))
  | inl e ↦
      let (few, (n, cut, least)) = prune_jobs_lem jobs in
      let long : max_jobs ≤ suc (length jobs) = ground arith in
      let exact : suc (length (prune_jobs jobs)) ≡ max_jobs = elim least [
        | inr full ↦ full
        | inl zero_ ↦
            let whole : prune_jobs jobs ≡ jobs = rw zero_ at cut in
            let same = ap length whole in omega arith
      ] in
      rw e (few, (suc n, cut, inr exact))
]

lookup-insert-here :
    {A : Type 0} (id : ℕ) (job : A) (jobs : Assoc ℕ A) → lookup id (insert id job jobs) ≡ some job
lookup-insert-here id job jobs =
    let here : nat_beq id id ≡ true = ground arith in lookup-insert id id job jobs ∙ rw here refl

-- A command of at most 16,384 code units starts: its job is in the table, running, and the table holds at most a
-- hundred jobs. A longer command is refused.
pub start_privileged_command_lem :
    (id : ℕ) (jail_name command : Text) (jobs : Assoc ℕ PrivilegedCommandJob)
    → ((length command ≤ max_command)
        × ((jobs' : Assoc ℕ PrivilegedCommandJob) × (job : PrivilegedCommandJob)
            × (start_privileged_command id jail_name command jobs ≡ some jobs')
            × (length jobs' ≤ max_jobs)
            × (lookup id jobs' ≡ some job)
            × (job.status ≡ running)))
      ⊎ ((max_command < length command)
          × (start_privileged_command id jail_name command jobs ≡ none))
unfolding start_privileged_command
start_privileged_command_lem id jail_name command jobs =
    let job : PrivilegedCommandJob = record {
      jail_name = jail_name;
      command = command;
      status = running;
      exit_code = none;
      stdout = none;
      stderr = none;
      message = codes "Running…";
    } in
    let (few, _) = prune_jobs_lem jobs in
    let grown = length-insert id job (prune_jobs jobs) in
    let here = lookup-insert-here id job (prune_jobs jobs) in
    let bound : length (insert id job (prune_jobs jobs)) ≤ max_jobs = omega arith in
    elim (Bool-cases (ltb max_command (length command))) [
      | inl e ↦ inr (ground arith, rw e refl)
      | inr e ↦
          inl (ground arith, (insert id job (prune_jobs jobs), job, rw e refl, bound, here, refl))
    ]
