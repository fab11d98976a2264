-- ===== src/ConfigSync/Transaction.antt =====
-- unraid-api-plugin-incus/src/config-sync.service.ts: writeConfigPair and writeFileAtomic, over
-- the file system of Files. The random part of the token is an argument.
use incus_unraid.Prelude.{
  Text, codes, Bool, true, false, ◌&&◌, Option, none, some, ◌++◌, if◌then◌else◌,
}
use incus_unraid.ConfigSync.Files.{FileSystem}

abbrev pub is_some : Option Text → Bool
is_some none = false
is_some (some t) = true

-- the six paths of one call
pub record Paths : Type 0 where
  pub cfg : Text
  pub json : Text
  pub cfg_stage : Text
  pub json_stage : Text
  pub cfg_backup : Text
  pub json_backup : Text

unfoldable pub paths_of : Text → Text → Text → Paths
paths_of cfg json token = record {
  cfg = cfg;
  json = json;
  cfg_stage = cfg ++ (codes ".stage-" ++ token);
  json_stage = json ++ (codes ".stage-" ++ token);
  cfg_backup = cfg ++ (codes ".backup-" ++ token);
  json_backup = json ++ (codes ".backup-" ++ token);
}

pub data Outcome : Type 0 where
  -- returned
  saved : Outcome
  -- threw behind the `try`, on removing a backup
  backup_left : Outcome
  -- threw the error of the `try`, with the rollback complete
  rolled_back : Outcome
  -- threw the AggregateError
  incomplete : Outcome

module _ (fs : FileSystem) where
  open fs use {Disk, content, write_file, copy_file, rename_file, unlink}

  -- the disk and the four flags
  pub record Progress : Type 0 where
    pub disk : Disk
    pub cfg_backed_up : Bool
    pub json_backed_up : Bool
    pub cfg_installed : Bool
    pub json_installed : Bool

  unfoldable pub remove_if_present : Text → Disk → Bool × Disk
  remove_if_present p d = if is_some (content d p) then unlink p d else (true, d)

  module _ (ps : Paths) (cfg_content json_content : Text) where
    unfoldable pub write_stage : Text → Text → Progress → Bool × Progress
    write_stage p c s =
        let (returned, d) = write_file p c s.disk in (returned, record s { disk = d })

    -- a copy that returns sets its flag
    unfoldable pub back_up_cfg : Bool → Progress → Bool × Progress
    back_up_cfg existed s =
        let (returned, d) = copy_file ps.cfg ps.cfg_backup s.disk in
        if existed then (returned, record s { disk = d; cfg_backed_up = returned }) else (true, s)

    unfoldable pub back_up_json : Bool → Progress → Bool × Progress
    back_up_json existed s =
        let (returned, d) = copy_file ps.json ps.json_backup s.disk in
        if existed then (returned, record s { disk = d; json_backed_up = returned }) else (true, s)

    unfoldable pub install_cfg : Progress → Bool × Progress
    install_cfg s =
        let (returned, d) = rename_file ps.cfg_stage ps.cfg s.disk in
        (returned, record s { disk = d; cfg_installed = returned })

    unfoldable pub install_json : Progress → Bool × Progress
    install_json s =
        let (returned, d) = rename_file ps.json_stage ps.json s.disk in
        (returned, record s { disk = d; json_installed = returned })

    -- the next statement of the `try`, unless one before it threw
    abbrev pub and_then : Bool × Progress → (Progress → Bool × Progress) → Bool × Progress
    and_then r next = let (returned, s) = r in if returned then next s else (false, s)

    unfoldable pub try_block : Disk → Bool × Progress
    unfolding write_stage back_up_cfg back_up_json install_cfg install_json
    try_block d =
        let cfg_existed = is_some (content d ps.cfg) in
        let json_existed = is_some (content d ps.json) in
        let start : Progress = record {
          disk = d;
          cfg_backed_up = false;
          json_backed_up = false;
          cfg_installed = false;
          json_installed = false;
        } in
        let staged_cfg = write_stage ps.cfg_stage cfg_content start in
        let staged = and_then staged_cfg (write_stage ps.json_stage json_content) in
        let backed_cfg = and_then staged (back_up_cfg cfg_existed) in
        let backed = and_then backed_cfg (back_up_json json_existed) in
        let installed_cfg = and_then backed install_cfg in and_then installed_cfg install_json

    -- one `attempt` of the rollback on a canonical file
    unfoldable pub restore : Bool → Bool → Text → Text → Disk → Bool × Disk
    unfolding remove_if_present
    restore backed_up installed backup path d =
        if backed_up
        then rename_file backup path d
        else if installed
        then remove_if_present path d
        else (true, d)

    -- the `catch` block: whether every attempt returned, and the disk
    unfoldable pub roll_back : Progress → Bool × Disk
    roll_back s =
        let (a, d1) = restore s.cfg_backed_up s.cfg_installed ps.cfg_backup ps.cfg s.disk in
        let (b, d2) = restore s.json_backed_up s.json_installed ps.json_backup ps.json d1 in
        let (c, d3) = remove_if_present ps.cfg_stage d2 in
        let (e, d4) = remove_if_present ps.json_stage d3 in (a && b && c && e, d4)

    -- the two statements behind the `try`
    unfoldable pub clean_up : Disk → Bool × Disk
    clean_up d =
        let (a, d1) = remove_if_present ps.cfg_backup d in
        let (b, d2) = remove_if_present ps.json_backup d1 in if a then (b, d2) else (false, d1)

    abbrev pub finish : Bool × Progress → Outcome × Disk
    finish (true, s) = let (a, d) = clean_up s.disk in (if a then saved else backup_left, d)
    finish (false, s) = let (a, d) = roll_back s in (if a then rolled_back else incomplete, d)

    unfoldable pub write_config_pair : Disk → Outcome × Disk
    unfolding try_block roll_back clean_up restore remove_if_present
    write_config_pair d = finish (try_block d)

  -- writeFileAtomic, with its temporary path; a throw of either call is passed on
  unfoldable pub write_file_atomic : Text → Text → Text → Disk → Bool × Disk
  write_file_atomic path tmp_path text d =
      let (returned, d1) = write_file tmp_path text d in
      if returned then rename_file tmp_path path d1 else (false, d1)
