-- ===== src/Tests/Disk.antt =====
-- A file system in memory that meets what config-sync.service.ts relies on: a write, a copy and an
-- unlink always return, and a rename throws where its source is missing.
use incus_unraid.Prelude.{
  Text, Bool, true, false, Option, none, some, ◌≡◌, eq_text, eq_text_iff, if◌then◌else◌,
  Option-cases, inl, inr, arith,
}
use incus_unraid.ConfigSync.Files.{FileSystem}

abbrev pub Memory : Type 0
Memory = Text → Option Text

abbrev pub store : Text → Option Text → Memory → Memory
store p c d q = if eq_text p q then c else d q

abbrev pub move : Text → Text → Option Text → Memory → Bool × Memory
move p q none d = (false, d)
move p q (some c) d = (true, store q (some c) (store p none d))

pub store-done : (p : Text) (c : Option Text) (d : Memory) → store p c d p ≡ c
store-done p c d = ground (arith, eq_text_iff p p)

pub store-else :
    (p : Text) (c : Option Text) (d : Memory) (q : Text) → eq_text p q ≡ false → store p c d q ≡ d q
store-else p c d q h = rw h

module _ (p q : Text) (d : Memory) where
  pub move-done : (move p q (d p) d).0 ≡ true → (move p q (d p) d).1 q ≡ d p
  move-done h = elim (Option-cases (d p)) [
    | inl e ↦ absurd (let g = rw e at h in cc)
    | inr (c, e) ↦ rw e (store-done q (some c) (store p none d))
  ]

  pub move-source :
      (move p q (d p) d).0 ≡ true → eq_text p q ≡ false → (move p q (d p) d).1 p ≡ none
  move-source h n = elim (Option-cases (d p)) [
    | inl e ↦ absurd (let g = rw e at h in cc)
    | inr (c, e) ↦ rw e (ground (arith, eq_text_iff p q, eq_text_iff q p, eq_text_iff p p))
  ]

  pub move-else :
      (r : Text) → eq_text p r ≡ false → eq_text q r ≡ false → (move p q (d p) d).1 r ≡ d r
  move-else r n m = elim (Option-cases (d p)) [ inl e ↦ rw e | inr (c, e) ↦ rw e (rw m (rw n)) ]

  pub move-failed : (r : Text) → (move p q (d p) d).0 ≡ false → (move p q (d p) d).1 r ≡ d r
  move-failed r h = elim (Option-cases (d p)) [
    | inl e ↦ rw e
    | inr (c, e) ↦ absurd (let g = rw e at h in cc)
  ]

abbrev pub memory : FileSystem
memory = record {
  Disk = Memory;
  content = λ d p. d p;
  write_file = λ p c d. (true, store p (some c) d);
  copy_file = λ p q d. (true, store q (d p) d);
  rename_file = λ p q d. move p q (d p) d;
  unlink = λ p d. (true, store p none d);
  write_file-done = λ p c d h. store-done p (some c) d;
  write_file-else = λ p c d q h. store-else p (some c) d q h;
  copy_file-done = λ p q d h. store-done q (d p) d;
  copy_file-else = λ p q d r h. store-else q (d p) d r h;
  rename_file-done = move-done;
  rename_file-source = move-source;
  rename_file-else = move-else;
  rename_file-failed = move-failed;
  unlink-done = λ p d h. store-done p none d;
  unlink-else = λ p d r h. store-else p none d r h;
}
