-- ===== src/Registry/Problem.antt =====
-- The errors of internal/registry, with the texts that they quote where a test reads them.
use wrtdeck.Prelude.{if◌then◌else◌, Text, nat_key, text_key, Bool}

-- What is wrong with an entry, as the error names it.
pub data Problem : Type 0 where
  no_entry bad_id bad_kind empty_name bad_transport : Problem
  bad_range no_options bad_param_type : Text → Problem
  no_url no_tcp_address no_udp_address no_executable : Problem
  empty_broker bad_broker no_host no_mqtt empty_topic subscribing_action bad_mode : Problem
  bad_scheme : (scheme supported : Text) → Problem
  bad_qos retained_subscription bad_encoding : Problem
  no_path bad_pattern bad_extract bad_value_type : Problem
  undeclared : (namespace name : Text) → Problem

pub data Checked {ℓ} (A : Type ℓ) : Type ℓ where
  ok : A → Checked A
  err : Problem → Checked A

infixl 5 ◌>>=◌
abbrev pub ◌>>=◌ {ℓ κ} : {A : Type ℓ} {B : Type κ} → Checked A → (A → Checked B) → Checked B
ok a >>= f = f a
err e >>= f = err e

abbrev pub check : Bool → Problem → Checked {0} Unit
check b e = if b then ok tt else err e
