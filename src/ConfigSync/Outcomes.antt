-- ===== src/ConfigSync/Outcomes.antt =====
-- How writeConfigPair ends, on every run of the file system.
use incus_unraid.Prelude.{
  Text, Bool, true, false, not, ◌&&◌, inl, inr, Option, none, some, ◌≡◌, refl, ap, ◌∙◌, eq_text,
  if◌then◌else◌, arith, Bool-cases, Option-cases,
}
use incus_unraid.ConfigSync.Files.{FileSystem}
use incus_unraid.ConfigSync.Transaction
use incus_unraid.ConfigSync.Transaction.{
  Paths, is_some, Outcome, saved, backup_left, rolled_back, incomplete,
}
use incus_unraid.ConfigSync.Atomic.{Apart, IsDistinct}
use incus_unraid.ConfigSync.Atomic

module _ (fs : FileSystem) where
  open fs use {
    Disk, content, rename_file, unlink, rename_file-done, rename_file-else, unlink-done,
    unlink-else,
  }

  remove_if_present-else :
      (p : Text) (d : Disk) (r : Text)
      → eq_text p r ≡ false
      → content (Transaction.remove_if_present fs p d).1 r ≡ content d r
  unfolding Transaction.remove_if_present
  remove_if_present-else p d r h = ground (arith, unlink-else p d r h)

  remove_if_present-done :
      (p : Text) (d : Disk)
      → (Transaction.remove_if_present fs p d).0 ≡ true
      → content (Transaction.remove_if_present fs p d).1 p ≡ none
  unfolding Transaction.remove_if_present
  remove_if_present-done p d h = elim (Option-cases (content d p)) [
    | inl e ↦ rw (e, Transaction.remove_if_present) e
    | inr (t, e) ↦
        rw (e, Transaction.remove_if_present)
          (unlink-done p d (rw (e, Transaction.remove_if_present) at h))
  ]

  module _ (ps : Paths) (cfg_content json_content : Text) where
    -- an attempt touches its canonical file and its backup alone
    restore-else :
        (backed_up installed : Bool) (backup path : Text) (d : Disk) (r : Text)
        → eq_text backup r ≡ false
        → eq_text path r ≡ false
        → content
            (Transaction.restore fs ps cfg_content json_content backed_up installed backup path d).1
            r
          ≡ content d r
    unfolding Transaction.restore
    restore-else true installed backup path d r h g = rename_file-else backup path d r h g
    restore-else false true backup path d r h g = remove_if_present-else path d r g
    restore-else false false backup path d r h g = refl

    -- an attempt that returns leaves the file as it was before the transaction, `old`
    restore-done :
        (backed_up installed : Bool) (backup path : Text) (d : Disk) (old new : Option Text)
        → content d path ≡ (if installed then new else old)
        → (if backed_up then content d backup else old) ≡ old
        → (if installed && not backed_up then old else none) ≡ none
        → (Transaction.restore fs ps cfg_content json_content backed_up installed backup path d).0
          ≡ true
        → content
            (Transaction.restore fs ps cfg_content json_content backed_up installed backup path d).1
            path
          ≡ old
    unfolding Transaction.restore
    restore-done true installed backup path d old new a b c e =
        ground (arith, rename_file-done backup path d e)
    restore-done false true backup path d old new a b c e =
        ground (arith, remove_if_present-done path d e)
    restore-done false false backup path d old new a b c e = a

    module _ (apart : IsDistinct ps) where
      clean_up-else :
          (d : Disk) (r : Text)
          → eq_text ps.cfg_backup r ≡ false
          → eq_text ps.json_backup r ≡ false
          → content (Transaction.clean_up fs ps cfg_content json_content d).1 r ≡ content d r
      unfolding Transaction.clean_up
      clean_up-else d r h g =
          let (a, d1) = Transaction.remove_if_present fs ps.cfg_backup d in
          ground (
            arith,
            remove_if_present-else ps.cfg_backup d r h,
            remove_if_present-else ps.json_backup d1 r g,
          )

      clean_up-done :
          (d : Disk)
          → (Transaction.clean_up fs ps cfg_content json_content d).0 ≡ true
          → (content (Transaction.clean_up fs ps cfg_content json_content d).1 ps.cfg_backup ≡ none)
            × (content (Transaction.clean_up fs ps cfg_content json_content d).1 ps.json_backup
                ≡ none)
      unfolding Transaction.clean_up
      clean_up-done d h =
          let (a, d1) = Transaction.remove_if_present fs ps.cfg_backup d in
          ground (
            arith,
            remove_if_present-done ps.cfg_backup d,
            remove_if_present-done ps.json_backup d1,
            remove_if_present-else ps.json_backup d1 ps.cfg_backup apart.backups.1,
          )

      roll_back-done :
          (d0 : Disk) (s : Atomic.Progress fs ps cfg_content json_content apart)
          → Atomic.Inv fs ps cfg_content json_content apart d0 s
          → (Transaction.roll_back fs ps cfg_content json_content s).0 ≡ true
          → (content (Transaction.roll_back fs ps cfg_content json_content s).1 ps.cfg
              ≡ content d0 ps.cfg)
            × (content (Transaction.roll_back fs ps cfg_content json_content s).1 ps.json
                ≡ content d0 ps.json)
            × (content (Transaction.roll_back fs ps cfg_content json_content s).1 ps.cfg_stage
                ≡ none)
            × (content (Transaction.roll_back fs ps cfg_content json_content s).1 ps.json_stage
                ≡ none)
      unfolding Transaction.roll_back
      roll_back-done d0 s i h =
          let restore = Transaction.restore fs ps cfg_content json_content in
          let r1 = restore s.cfg_backed_up s.cfg_installed ps.cfg_backup ps.cfg s.disk in
          let r2 = restore s.json_backed_up s.json_installed ps.json_backup ps.json r1.1 in
          let r3 = Transaction.remove_if_present fs ps.cfg_stage r2.1 in
          let r4 = Transaction.remove_if_present fs ps.json_stage r3.1 in
          let parts : (r1.0 ≡ true) × (r2.0 ≡ true) × (r3.0 ≡ true) × (r4.0 ≡ true) =
            ground arith in
          let cfg =
            restore-done s.cfg_backed_up s.cfg_installed ps.cfg_backup ps.cfg s.disk
              (content d0 ps.cfg) (some cfg_content) i.cfg_state i.cfg_saved i.cfg_fresh parts.0 in
          let first = restore-else s.cfg_backed_up s.cfg_installed ps.cfg_backup ps.cfg s.disk in
          let json_before = first ps.json apart.json_cfg_backup.1 apart.cfg_json.0 in
          let backup_before = first ps.json_backup apart.backups.0 apart.cfg_json_backup.0 in
          let json =
            restore-done s.json_backed_up s.json_installed ps.json_backup ps.json r1.1
              (content d0 ps.json) (some json_content) (json_before ∙ i.json_state)
              (ap (λ t. if s.json_backed_up then t else content d0 ps.json) backup_before
                ∙ i.json_saved)
              i.json_fresh parts.1 in
          let second = restore-else s.json_backed_up s.json_installed ps.json_backup ps.json r1.1 in
          let third = remove_if_present-else ps.cfg_stage r2.1 in
          let fourth = remove_if_present-else ps.json_stage r3.1 in
          (
            fourth ps.cfg apart.cfg_json_stage.1
                ∙ third ps.cfg apart.cfg_cfg_stage.1
                ∙ second ps.cfg apart.cfg_json_backup.1 apart.cfg_json.1
                ∙ cfg,
            fourth ps.json apart.json_json_stage.1 ∙ third ps.json apart.json_cfg_stage.1 ∙ json,
            fourth ps.cfg_stage apart.stages.1 ∙ remove_if_present-done ps.cfg_stage r2.1 parts.2,
            remove_if_present-done ps.json_stage r3.1 parts.3,
          )

  -- What a call from disk `d0` leaves, by how it ends.
  abbrev pub Ends : Paths → Text → Text → Disk → Outcome × Disk → Type 0
  Ends ps c j d0 (saved, d) =
      (content d ps.cfg ≡ some c)
      × (content d ps.json ≡ some j)
      × (content d ps.cfg_backup ≡ none)
      × (content d ps.json_backup ≡ none)
  Ends ps c j d0 (backup_left, d) = (content d ps.cfg ≡ some c) × (content d ps.json ≡ some j)
  Ends ps c j d0 (rolled_back, d) =
      (content d ps.cfg ≡ content d0 ps.cfg)
      × (content d ps.json ≡ content d0 ps.json)
      × (content d ps.cfg_stage ≡ none)
      × (content d ps.json_stage ≡ none)
  Ends ps c j d0 (incomplete, d) = Unit

  module _ (ps : Paths) (c j : Text) (apart : IsDistinct ps) (d0 : Disk) where
    finish-Ends :
        (r : Bool × Transaction.Progress fs)
        → Atomic.Good fs ps c j apart d0 (Atomic.BothInstalled fs ps c j apart d0) r
        → Ends ps c j d0 (Transaction.finish fs ps c j r)
    finish-Ends (true, s) (i, at) =
        let a = at refl in
        let kept = clean_up-else ps c j apart s.disk in
        let cfg =
          kept ps.cfg apart.cfg_cfg_backup.1 apart.cfg_json_backup.1
          ∙ i.cfg_state
          ∙ rw a.cfg_flag in
        let json =
          kept ps.json apart.json_cfg_backup.1 apart.json_json_backup.1
          ∙ i.json_state
          ∙ rw a.json_flag in
        elim (Bool-cases (Transaction.clean_up fs ps c j s.disk).0) [
          | inl e ↦
              let gone = clean_up-done ps c j apart s.disk e in rw e (cfg, json, gone.0, gone.1)
          | inr e ↦ rw e (cfg, json)
        ]
    finish-Ends (false, s) (i, at) = elim (Bool-cases (Transaction.roll_back fs ps c j s).0) [
      | inl e ↦ rw e (roll_back-done ps c j apart d0 s i e)
      | inr e ↦ rw e tt
    ]

    -- On six distinct paths, whichever calls of the file system throw: a call that returns has
    -- written both files and left no backup; one that throws on removing a backup has written both
    -- files; and one that throws the error of its `try` has left both files as they were, present
    -- or not, and no staged file. Of an AggregateError nothing is said.
    pub write_config_pair-Ends : Ends ps c j d0 (Transaction.write_config_pair fs ps c j d0)
    write_config_pair-Ends =
        unfold Transaction.write_config_pair in
        finish-Ends (Transaction.try_block fs ps c j d0) (Atomic.try_block-Good fs ps c j apart d0)
