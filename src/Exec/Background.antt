-- ===== src/Exec/Background.antt =====
-- unraid-api-plugin-incus/src/incus-exec.service.ts: what runs behind a job, and the job it ends with.
use incus_unraid.Prelude.{
  ℕ, Assoc, insert, nat_eq, Bool, false, Option, none, some, List, [], ◌∷◌, ◌++◌, Text, codes,
  if◌then◌else◌,
}
use incus_unraid.UnixClient.Exchange.{Outcome, value, throws, hangs}
use incus_unraid.UnixClient.Requests.{Socket}
use incus_unraid.Exec.Jobs.{HomebrewInstallJob, JobStatus, PrivilegedCommandJob, failed, success}
use incus_unraid.Exec.RunOnce.{RunResult, Texts, is_zero, run_once}

module _ {W : Type 0} (s : Socket W) (t : Texts) where
  -- runPrivilegedCommand, on the table as it is when the command has ended; `none` where it never ends
  unfoldable pub privileged_result : Text → Text → Outcome RunResult → Option PrivilegedCommandJob
  privileged_result jail_name command hangs = none
  privileged_result jail_name command (value r) = some (record {
    jail_name = jail_name;
    command = command;
    status = if is_zero r.exit_code then success else failed;
    exit_code = some r.exit_code;
    stdout = r.stdout;
    stderr = r.stderr;
    message =
        if is_zero r.exit_code
        then codes "Command finished."
        else codes "Command exited with code " ++ t.show r.exit_code ++ codes ".";
  })
  privileged_result jail_name command (throws e) = some (record {
    jail_name = jail_name;
    command = command;
    status = failed;
    exit_code = none;
    stdout = none;
    stderr = none;
    message = t.error_message e;
  })

  -- The end of runPrivilegedCommand: the job is put into the table, also where it was pruned in the meantime.
  unfoldable pub finish_privileged_command :
      ℕ
      → Text
      → Text
      → Outcome RunResult
      → Assoc ℕ PrivilegedCommandJob
      → Assoc ℕ PrivilegedCommandJob
  unfolding privileged_result
  finish_privileged_command id jail_name command outcome jobs =
      elim (privileged_result jail_name command outcome) [
        | none ↦ jobs
        | some job ↦ insert id job jobs
      ]

  abbrev homebrew_job : Text → Text → JobStatus → Text → HomebrewInstallJob
  homebrew_job jail_name formula status text = record {
    jail_name = jail_name;
    formula = formula;
    status = status;
    message = text;
  }

  -- What a step of the install that did not return does to the job.
  abbrev stopped_by : Text → Text → Outcome RunResult → Option HomebrewInstallJob
  stopped_by jail_name formula (throws e) =
      some (homebrew_job jail_name formula failed (t.error_message e))
  stopped_by jail_name formula _ = none

  abbrev as_agent : Text → List Text
  as_agent script = codes "su" ∷ codes "-l" ∷ codes "agent" ∷ codes "-c" ∷ script ∷ []

  -- runHomebrewInstall, from the install of the formula on
  unfoldable pub brew_install : Text → Text → W → Option HomebrewInstallJob × W
  brew_install jail_name formula w =
      let script =
        codes "eval \"$(/home/agent/.linuxbrew/bin/brew shellenv)\" && brew install " ++ formula in
      let (result, w') = run_once s t jail_name (as_agent script) 180 false w in
      (
        elim result [
          | value r ↦ some (
              if is_zero r.exit_code
              then homebrew_job jail_name formula success (formula ++ codes " installed.")
              else homebrew_job jail_name formula failed (
                  codes "brew install "
                  ++ formula
                  ++ codes " failed (exit "
                  ++ t.show r.exit_code
                  ++ codes ")."))
          | throws e ↦ stopped_by jail_name formula (throws e)
          | hangs ↦ none
        ],
        w',
      )

  abbrev bootstrap_script : Text
  bootstrap_script =
      codes
        "mkdir -p /home/agent/.linuxbrew/bin && git clone --depth=1 https://github.com/Homebrew/brew "
      ++ codes "/home/agent/.linuxbrew/Homebrew && ln -s /home/agent/.linuxbrew/Homebrew/bin/brew "
      ++ codes "/home/agent/.linuxbrew/bin/brew"

  -- runHomebrewInstall: the job it ends with, `none` where it never ends
  unfoldable pub run_homebrew_install : Text → Text → W → Option HomebrewInstallJob × W
  run_homebrew_install jail_name formula w =
      let probe = codes "test" ∷ codes "-x" ∷ codes "/home/agent/.linuxbrew/bin/brew" ∷ [] in
      let (has_brew, w') = run_once s t jail_name probe 60 false w in
      elim has_brew [
        | throws e ↦ (stopped_by jail_name formula (throws e), w')
        | hangs ↦ (none, w')
        | value r ↦
            if is_zero r.exit_code
            then brew_install jail_name formula w'
            else (let (install, w'') =
                  run_once s t jail_name (as_agent bootstrap_script) 180 false w' in
                elim install [
                  | throws e ↦ (stopped_by jail_name formula (throws e), w'')
                  | hangs ↦ (none, w'')
                  | value i ↦ if is_zero i.exit_code then brew_install jail_name formula w'' else (
                    some (
                        homebrew_job jail_name formula failed (
                          codes
                            "Homebrew isn't installed in this container and bootstrapping it failed (exit "
                          ++ t.show i.exit_code
                          ++ codes "). It needs bash and git available inside the container.")),
                    w'',
                  )
                ])
      ]

  -- checkSudoEnabled: an error is `false`; `none` where it never ends
  unfoldable pub check_sudo_enabled : Text → W → Option Bool × W
  check_sudo_enabled jail_name w =
      let (result, w') =
        run_once s t jail_name (codes "test" ∷ codes "-f" ∷ codes "/etc/sudoers.d/agent" ∷ []) 60
          false w in
      (
        elim result [ value r ↦ some (is_zero r.exit_code) | throws e ↦ some false | hangs ↦ none ],
        w',
      )
