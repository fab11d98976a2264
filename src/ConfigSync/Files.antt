-- ===== src/ConfigSync/Files.antt =====
-- What config-sync.service.ts relies on of node:fs: the calls act on one path (`rename` on two),
-- and a call may throw. A throwing write, copy or unlink says nothing of its own path; a throwing
-- rename has done nothing.
use incus_unraid.Prelude.{Text, Bool, true, false, Option, none, some, ◌≡◌, eq_text}

pub record FileSystem : Type 1 where
  pub Disk : Type 0
  -- the content of a path, `none` where there is no file
  pub content : Disk → Text → Option Text
  -- each call returns whether it returned, and the disk that it left
  pub write_file : Text → Text → Disk → Bool × Disk
  pub copy_file : Text → Text → Disk → Bool × Disk
  pub rename_file : Text → Text → Disk → Bool × Disk
  pub unlink : Text → Disk → Bool × Disk
  pub write_file-done :
      (p c : Text) (d : Disk)
      → (write_file p c d).0 ≡ true
      → content (write_file p c d).1 p ≡ some c
  pub write_file-else :
      (p c : Text) (d : Disk) (q : Text)
      → eq_text p q ≡ false
      → content (write_file p c d).1 q ≡ content d q
  pub copy_file-done :
      (p q : Text) (d : Disk)
      → (copy_file p q d).0 ≡ true
      → content (copy_file p q d).1 q ≡ content d p
  pub copy_file-else :
      (p q : Text) (d : Disk) (r : Text)
      → eq_text q r ≡ false
      → content (copy_file p q d).1 r ≡ content d r
  pub rename_file-done :
      (p q : Text) (d : Disk)
      → (rename_file p q d).0 ≡ true
      → content (rename_file p q d).1 q ≡ content d p
  pub rename_file-source :
      (p q : Text) (d : Disk)
      → (rename_file p q d).0 ≡ true
      → eq_text p q ≡ false
      → content (rename_file p q d).1 p ≡ none
  pub rename_file-else :
      (p q : Text) (d : Disk) (r : Text)
      → eq_text p r ≡ false
      → eq_text q r ≡ false
      → content (rename_file p q d).1 r ≡ content d r
  pub rename_file-failed :
      (p q : Text) (d : Disk) (r : Text)
      → (rename_file p q d).0 ≡ false
      → content (rename_file p q d).1 r ≡ content d r
  pub unlink-done : (p : Text) (d : Disk) → (unlink p d).0 ≡ true → content (unlink p d).1 p ≡ none
  pub unlink-else :
      (p : Text) (d : Disk) (r : Text)
      → eq_text p r ≡ false
      → content (unlink p d).1 r ≡ content d r
