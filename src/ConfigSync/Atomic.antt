-- ===== src/ConfigSync/Atomic.antt =====
-- writeConfigPair is a transaction: both files are new, or both are as they were, unless an
-- attempt of the rollback failed.
use incus_unraid.Prelude.{
  Text, Bool, true, false, not, ◌&&◌, none, some, ◌≡◌, refl, eq_text, if◌then◌else◌, arith,
}
use incus_unraid.ConfigSync.Files.{FileSystem}
use incus_unraid.ConfigSync.Transaction
use incus_unraid.ConfigSync.Transaction.{
  Paths, is_some, Outcome, saved, backup_left, rolled_back, incomplete,
}

abbrev pub Apart : Text → Text → Type 0
Apart p q = (eq_text p q ≡ false) × (eq_text q p ≡ false)

-- The canonical files differ from each other and from the four files of the transaction, which
-- differ from one another.
pub record IsDistinct (ps : Paths) : Type 0 where
  pub cfg_json : Apart ps.cfg ps.json
  pub cfg_cfg_stage : Apart ps.cfg ps.cfg_stage
  pub cfg_json_stage : Apart ps.cfg ps.json_stage
  pub cfg_cfg_backup : Apart ps.cfg ps.cfg_backup
  pub cfg_json_backup : Apart ps.cfg ps.json_backup
  pub json_cfg_stage : Apart ps.json ps.cfg_stage
  pub json_json_stage : Apart ps.json ps.json_stage
  pub json_cfg_backup : Apart ps.json ps.cfg_backup
  pub json_json_backup : Apart ps.json ps.json_backup
  pub stages : Apart ps.cfg_stage ps.json_stage
  pub cfg_stage_cfg_backup : Apart ps.cfg_stage ps.cfg_backup
  pub cfg_stage_json_backup : Apart ps.cfg_stage ps.json_backup
  pub json_stage_cfg_backup : Apart ps.json_stage ps.cfg_backup
  pub json_stage_json_backup : Apart ps.json_stage ps.json_backup
  pub backups : Apart ps.cfg_backup ps.json_backup

module _ (fs : FileSystem) (ps : Paths) (cfg_content json_content : Text)
    (apart : IsDistinct ps) where
  open fs use {
    Disk, content, write_file, copy_file, rename_file, unlink, write_file-done, write_file-else,
    copy_file-done, copy_file-else, rename_file-done, rename_file-source, rename_file-else,
    rename_file-failed, unlink-done, unlink-else,
  }

  abbrev pub Progress : Type 0
  Progress = Transaction.Progress fs

  module _ (d0 : Disk) where
    -- what holds at every point of the `try`
    pub record Inv (s : Progress) : Type 0 where
      pub cfg_state :
          content s.disk ps.cfg ≡ (if s.cfg_installed then some cfg_content else content d0 ps.cfg)
      pub json_state :
          content s.disk ps.json
          ≡ (if s.json_installed then some json_content else content d0 ps.json)
      pub cfg_saved :
          (if s.cfg_backed_up then content s.disk ps.cfg_backup else content d0 ps.cfg)
          ≡ content d0 ps.cfg
      pub json_saved :
          (if s.json_backed_up then content s.disk ps.json_backup else content d0 ps.json)
          ≡ content d0 ps.json
      pub cfg_fresh :
          (if s.cfg_installed && not s.cfg_backed_up then content d0 ps.cfg else none) ≡ none
      pub json_fresh :
          (if s.json_installed && not s.json_backed_up then content d0 ps.json else none) ≡ none

    -- where the `try` has got to
    pub record At (s : Progress)
        (cfg_staged json_staged cfg_backed json_backed cfg_done json_done : Bool) : Type 0 where
      pub cfg_flag : s.cfg_installed ≡ cfg_done
      pub json_flag : s.json_installed ≡ json_done
      pub cfg_stage_is :
          (if cfg_staged then content s.disk ps.cfg_stage else some cfg_content) ≡ some cfg_content
      pub json_stage_is :
          (if json_staged then content s.disk ps.json_stage else some json_content)
          ≡ some json_content
      pub cfg_backup_is : s.cfg_backed_up ≡ (cfg_backed && is_some (content d0 ps.cfg))
      pub json_backup_is : s.json_backed_up ≡ (json_backed && is_some (content d0 ps.json))

    abbrev pub Good : (Progress → Type 0) → Bool × Progress → Type 0
    Good P r = Inv r.1 × (r.0 ≡ true → P r.1)

    and_then-Good :
        (P Q : Progress → Type 0) (r : Bool × Progress) (next : Progress → Bool × Progress)
        → Good P r
        → ((s : Progress) → Inv s → P s → Good Q (next s))
        → Good Q (Transaction.and_then fs ps cfg_content json_content r next)
    and_then-Good P Q (true, s) next g f = f s g.0 (g.1 refl)
    and_then-Good P Q (false, s) next g f = (g.0, λ e. absurd (cc))

    abbrev Started : Progress → Type 0
    Started s = At s false false false false false false

    abbrev CfgStaged : Progress → Type 0
    CfgStaged s = At s true false false false false false

    abbrev BothStaged : Progress → Type 0
    BothStaged s = At s true true false false false false

    abbrev CfgBacked : Progress → Type 0
    CfgBacked s = At s true true true false false false

    abbrev BothBacked : Progress → Type 0
    BothBacked s = At s true true true true false false

    abbrev CfgInstalled : Progress → Type 0
    CfgInstalled s = At s false true true true true false

    abbrev pub BothInstalled : Progress → Type 0
    BothInstalled s = At s false false true true true true

    write_cfg_stage-Good :
        (s : Progress)
        → Inv s
        → Started s
        → Good CfgStaged
            (Transaction.write_stage fs ps cfg_content json_content ps.cfg_stage cfg_content s)
    unfolding Transaction.write_stage
    write_cfg_stage-Good s i a =
        let same = write_file-else ps.cfg_stage cfg_content s.disk in
        let cfg = same ps.cfg apart.cfg_cfg_stage.1 in
        let json = same ps.json apart.json_cfg_stage.1 in
        let cfg_backup = same ps.cfg_backup apart.cfg_stage_cfg_backup.0 in
        let json_backup = same ps.json_backup apart.cfg_stage_json_backup.0 in
        (ground arith, λ e. ground (arith, write_file-done ps.cfg_stage cfg_content s.disk e))

    write_json_stage-Good :
        (s : Progress)
        → Inv s
        → CfgStaged s
        → Good BothStaged
            (Transaction.write_stage fs ps cfg_content json_content ps.json_stage json_content s)
    unfolding Transaction.write_stage
    write_json_stage-Good s i a =
        let same = write_file-else ps.json_stage json_content s.disk in
        let cfg = same ps.cfg apart.cfg_json_stage.1 in
        let json = same ps.json apart.json_json_stage.1 in
        let stage = same ps.cfg_stage apart.stages.1 in
        let cfg_backup = same ps.cfg_backup apart.json_stage_cfg_backup.0 in
        let json_backup = same ps.json_backup apart.json_stage_json_backup.0 in
        (ground arith, λ e. ground (arith, write_file-done ps.json_stage json_content s.disk e))

    back_up_cfg-Good :
        (existed : Bool)
        → existed ≡ is_some (content d0 ps.cfg)
        → (s : Progress) → Inv s
        → BothStaged s
        → Good CfgBacked (Transaction.back_up_cfg fs ps cfg_content json_content existed s)
    unfolding Transaction.back_up_cfg
    back_up_cfg-Good false x s i a = (i, λ e. ground arith)
    back_up_cfg-Good true x s i a =
        let same = copy_file-else ps.cfg ps.cfg_backup s.disk in
        let cfg = same ps.cfg apart.cfg_cfg_backup.1 in
        let json = same ps.json apart.json_cfg_backup.1 in
        let stage = same ps.cfg_stage apart.cfg_stage_cfg_backup.1 in
        let json_stage = same ps.json_stage apart.json_stage_cfg_backup.1 in
        let json_backup = same ps.json_backup apart.backups.0 in
        let copied = copy_file-done ps.cfg ps.cfg_backup s.disk in (ground arith, λ e. ground arith)

    back_up_json-Good :
        (existed : Bool)
        → existed ≡ is_some (content d0 ps.json)
        → (s : Progress) → Inv s
        → CfgBacked s
        → Good BothBacked (Transaction.back_up_json fs ps cfg_content json_content existed s)
    unfolding Transaction.back_up_json
    back_up_json-Good false x s i a = (i, λ e. ground arith)
    back_up_json-Good true x s i a =
        let same = copy_file-else ps.json ps.json_backup s.disk in
        let cfg = same ps.cfg apart.cfg_json_backup.1 in
        let json = same ps.json apart.json_json_backup.1 in
        let stage = same ps.cfg_stage apart.cfg_stage_json_backup.1 in
        let json_stage = same ps.json_stage apart.json_stage_json_backup.1 in
        let cfg_backup = same ps.cfg_backup apart.backups.1 in
        let copied = copy_file-done ps.json ps.json_backup s.disk in
        (ground arith, λ e. ground arith)

    install_cfg-Good :
        (s : Progress)
        → Inv s
        → BothBacked s
        → Good CfgInstalled (Transaction.install_cfg fs ps cfg_content json_content s)
    unfolding Transaction.install_cfg
    install_cfg-Good s i a =
        let same = rename_file-else ps.cfg_stage ps.cfg s.disk in
        let json = same ps.json apart.json_cfg_stage.1 apart.cfg_json.0 in
        let json_stage = same ps.json_stage apart.stages.0 apart.cfg_json_stage.0 in
        let cfg_backup = same ps.cfg_backup apart.cfg_stage_cfg_backup.0 apart.cfg_cfg_backup.0 in
        let json_backup =
          same ps.json_backup apart.cfg_stage_json_backup.0 apart.cfg_json_backup.0 in
        let done = rename_file-done ps.cfg_stage ps.cfg s.disk in
        let failed = rename_file-failed ps.cfg_stage ps.cfg s.disk ps.cfg in
        (ground arith, λ e. ground arith)

    install_json-Good :
        (s : Progress)
        → Inv s
        → CfgInstalled s
        → Good BothInstalled (Transaction.install_json fs ps cfg_content json_content s)
    unfolding Transaction.install_json
    install_json-Good s i a =
        let same = rename_file-else ps.json_stage ps.json s.disk in
        let cfg = same ps.cfg apart.cfg_json_stage.1 apart.cfg_json.1 in
        let cfg_backup = same ps.cfg_backup apart.json_stage_cfg_backup.0 apart.json_cfg_backup.0 in
        let json_backup =
          same ps.json_backup apart.json_stage_json_backup.0 apart.json_json_backup.0 in
        let done = rename_file-done ps.json_stage ps.json s.disk in
        let failed = rename_file-failed ps.json_stage ps.json s.disk ps.json in
        (ground arith, λ e. ground arith)

    pub try_block-Good :
        Good BothInstalled (Transaction.try_block fs ps cfg_content json_content d0)
    unfolding Transaction.try_block
    try_block-Good =
        let start = write_cfg_stage-Good _ (ground arith) (ground arith) in
        let staged = and_then-Good CfgStaged BothStaged _ _ start write_json_stage-Good in
        let backed =
          and_then-Good BothStaged CfgBacked _ _ staged
            (back_up_cfg-Good (is_some (content d0 ps.cfg)) refl) in
        let both =
          and_then-Good CfgBacked BothBacked _ _ backed
            (back_up_json-Good (is_some (content d0 ps.json)) refl) in
        let installed = and_then-Good BothBacked CfgInstalled _ _ both install_cfg-Good in
        and_then-Good CfgInstalled BothInstalled _ _ installed install_json-Good
