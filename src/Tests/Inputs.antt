-- ===== src/Tests/Inputs.antt =====
-- The validators of config.entity.ts, and what an accepted update reads back as, at concrete inputs.
use incus_unraid.Prelude.{true, false, [], ◌∷◌, ◌≡◌, refl, Text, codes}
use incus_unraid.Config.{enabled, jail_cpu, jail_memory, jail_subnet, Object, bool, text}
use incus_unraid.Entity.Inputs.{validator, passes}
use incus_unraid.Entity.Regex.{nullable, derive, matches, times, up_to, literal}

memory_good : passes (validator jail_memory) (text (codes "1.5GiB")) ≡ true
unfolding passes matches derive nullable literal
memory_good = refl

memory_bad : passes (validator jail_memory) (text (codes "4gigs")) ≡ false
unfolding passes matches derive nullable literal
memory_bad = refl

subnet_good : passes (validator jail_subnet) (text (codes "10.0.0.0/8,1.2.3.4/32")) ≡ true
unfolding passes matches derive nullable times up_to
subnet_good = refl

subnet_bad : passes (validator jail_subnet) (text (codes "10.0.0/8")) ≡ false
unfolding passes matches derive nullable times up_to
subnet_bad = refl

abbrev old_cfg : Text
old_cfg = codes "SERVICE=\"disabled\"\nJAIL_CPU=2"

abbrev form : Object
form = (enabled, bool true) ∷ (jail_cpu, text (codes "4")) ∷ []
