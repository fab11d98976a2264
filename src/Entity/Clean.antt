-- ===== src/Entity/Clean.antt =====
-- unraid-api-plugin-incus/src/config.entity.ts, PATTERNS: no pattern matches a single quote or a line break.
use incus_unraid.Prelude.{ℕ, Bool, false, ◌≡◌, refl, Text, codes, has_char}
use incus_unraid.Entity.Inputs.{
  digit, one_to, ifname, cidr, cidr_list, allow_drop, shell_safe_token, cpu_cap, memory_unit,
  digits, memory_cap, absolute_path, uid_gid, ts_key, dir_or_zfs,
}
use incus_unraid.Entity.Regex.{
  Regex, empty, alt, times, one, seq, star, literal, Avoids, up_to-Avoids, times-Avoids,
  literal-Avoids,
}

-- An expression without the single quote and the line break.
pub record IsClean (r : Regex) : Type 0 where
  pub quote : Avoids 39 r
  pub line_break : Avoids 10 r

one-IsClean : (p : ℕ → Bool) → p 39 ≡ false → p 10 ≡ false → IsClean (one p)
one-IsClean p q l = record { quote = q; line_break = l }

empty-IsClean : IsClean empty
empty-IsClean = record { quote = tt; line_break = tt }

pub literal-IsClean :
    (s : Text) → has_char 39 s ≡ false → has_char 10 s ≡ false → IsClean (literal s)
literal-IsClean s q l = record { quote = literal-Avoids 39 s q; line_break = literal-Avoids 10 s l }

module _ {r s : Regex} (a : IsClean r) (b : IsClean s) where
  alt-IsClean : IsClean (alt r s)
  alt-IsClean = record { quote = (a.quote, b.quote); line_break = (a.line_break, b.line_break) }

  seq-IsClean : IsClean (seq r s)
  seq-IsClean = record { quote = (a.quote, b.quote); line_break = (a.line_break, b.line_break) }

module _ {r : Regex} (a : IsClean r) where
  star-IsClean : IsClean (star r)
  star-IsClean = record { quote = a.quote; line_break = a.line_break }

  times-IsClean : (n : ℕ) → IsClean (times n r)
  times-IsClean n = record {
    quote = times-Avoids 39 n r a.quote;
    line_break = times-Avoids 10 n r a.line_break;
  }

  one_to-IsClean : (n : ℕ) → IsClean (one_to n r)
  one_to-IsClean n = record {
    quote = (a.quote, up_to-Avoids 39 n r a.quote);
    line_break = (a.line_break, up_to-Avoids 10 n r a.line_break);
  }

digit-IsClean : IsClean digit
digit-IsClean = one-IsClean _ refl refl

digits-IsClean : IsClean digits
digits-IsClean = seq-IsClean digit-IsClean (star-IsClean digit-IsClean)

pub ifname-IsClean : IsClean ifname
ifname-IsClean = one_to-IsClean (one-IsClean _ refl refl) 14

pub shell_safe_token-IsClean : IsClean shell_safe_token
shell_safe_token-IsClean = one_to-IsClean (one-IsClean _ refl refl) 254

pub uid_gid-IsClean : IsClean uid_gid
uid_gid-IsClean = one_to-IsClean digit-IsClean 9

pub absolute_path-IsClean : IsClean absolute_path
absolute_path-IsClean =
    seq-IsClean (one-IsClean _ refl refl) (star-IsClean (one-IsClean _ refl refl))

pub dir_or_zfs-IsClean : IsClean dir_or_zfs
unfolding has_char
dir_or_zfs-IsClean =
    alt-IsClean (literal-IsClean (codes "dir") refl refl) (literal-IsClean (codes "zfs") refl refl)

pub allow_drop-IsClean : IsClean allow_drop
unfolding has_char
allow_drop-IsClean =
    alt-IsClean (literal-IsClean (codes "allow") refl refl)
      (literal-IsClean (codes "drop") refl refl)

cidr-IsClean : IsClean cidr
cidr-IsClean = seq-IsClean (one_to-IsClean digit-IsClean 2) (
    seq-IsClean
      (times-IsClean (seq-IsClean (one-IsClean _ refl refl) (one_to-IsClean digit-IsClean 2)) 3)
      (seq-IsClean (one-IsClean _ refl refl) (one_to-IsClean digit-IsClean 1)))

pub cidr_list-IsClean : IsClean cidr_list
cidr_list-IsClean =
    alt-IsClean empty-IsClean
      (seq-IsClean cidr-IsClean (star-IsClean (seq-IsClean (one-IsClean _ refl refl) cidr-IsClean)))

pub cpu_cap-IsClean : IsClean cpu_cap
cpu_cap-IsClean = alt-IsClean empty-IsClean (one_to-IsClean digit-IsClean 3)

pub ts_key-IsClean : IsClean ts_key
ts_key-IsClean = alt-IsClean empty-IsClean (one_to-IsClean (one-IsClean _ refl refl) 254)

memory_unit-IsClean : IsClean memory_unit
unfolding has_char
memory_unit-IsClean = alt-IsClean (literal-IsClean (codes "B") refl refl) (
    alt-IsClean (literal-IsClean (codes "KiB") refl refl) (
      alt-IsClean (literal-IsClean (codes "MiB") refl refl) (
        alt-IsClean (literal-IsClean (codes "GiB") refl refl)
          (literal-IsClean (codes "TiB") refl refl))))

pub memory_cap-IsClean : IsClean memory_cap
memory_cap-IsClean = alt-IsClean empty-IsClean (
    seq-IsClean digits-IsClean (
      seq-IsClean (alt-IsClean empty-IsClean (seq-IsClean (one-IsClean _ refl refl) digits-IsClean))
        memory_unit-IsClean))
