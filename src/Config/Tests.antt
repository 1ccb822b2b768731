-- ===== src/Config/Tests.antt =====
-- Runs of the password check and of the secrets, and the theorems at concrete inputs.

use wrtdeck.Prelude.{nat_key, text_key, codes, trim_space, contents, ◌≡◌, refl, true, some, []}
use wrtdeck.Config.Settings.{default_config, normalize, ConfigCodec, load_config}
use wrtdeck.Config.Settings.Repaired.{IsUsable, load_config-IsUsable}
use wrtdeck.Config.Password.{
  is_weak, occurs, kinds, too_short, too_common, one_kind, strong, check_password_strength,
}

strengths :
    (check_password_strength (codes "admin") ≡ too_short)
    × (check_password_strength (codes "Qwerty123") ≡ too_common)
    × (check_password_strength (codes "abcdefgh") ≡ one_kind)
    × (check_password_strength (codes "lamp-2024") ≡ strong)
unfolding check_password_strength trim_space is_weak kinds occurs
strengths = (refl, refl, refl, refl)

-- Reading changes nothing, and nothing is written.
abbrev same_config : ConfigCodec
same_config = record { encode = λ c. []; decode = λ t c. some (record c { listen = t }) }

empty_listen_repaired :
    (load_config same_config true true (contents [])).0
    ≡ some (record default_config { path = true })
unfolding load_config
empty_listen_repaired = refl

load_config-IsUsable_example :
    IsUsable (record default_config { path = true })
    × (normalize (record default_config { path = true }) ≡ record default_config { path = true })
load_config-IsUsable_example =
    load_config-IsUsable same_config true true (contents []) (record default_config { path = true })
      empty_listen_repaired
