-- ===== src/Transport/Exec/Allowed.antt =====
-- Which programs can be started.
use mathlib.Core.Path.{subst}
use wrtdeck.Prelude.{
  if◌then◌else◌, kept, Text, nat_key, text_key, or_false, ◌≡◌, refl, Bool, true, false, not, Option,
  none, some, List, [], ◌∷◌,
}
use wrtdeck.Transport.{TransportOptions}
use wrtdeck.Transport.Exec.{
  Paths, is_insecure_path, is_blocked_by, is_blocked, exec_allowed, resolve_executable,
  exec_disabled, exec_blocked, executed, exec_resolved, exec_do,
}

-- Every text of a list passes a test.
abbrev pub Passes : (Text → Bool) → List Text → Type 0
Passes test [] = Unit
Passes test (t ∷ ts) = (test t ≡ false) × Passes test ts

is_blocked-Passes :
    (paths : Paths) (clean : Text) (names : List Text)
    → is_blocked paths clean names ≡ false
    → Passes (is_blocked_by paths clean) names
unfolding is_blocked
is_blocked-Passes paths clean [] h = tt
is_blocked-Passes paths clean (name ∷ names) h =
    let (first, rest) =
      or_false (is_blocked_by paths clean name) (is_blocked paths clean names) h in
    (first, is_blocked-Passes paths clean names rest)

-- What holds of a program that is started.
pub record IsAllowed (paths : Paths) (opts : TransportOptions) (name path : Text) : Type 0 where
  pub enabled : opts.exec_enabled ≡ true
  pub resolved : resolve_executable paths name ≡ some path
  pub secure : is_insecure_path paths (paths.clean path) ≡ false
  pub unlisted : Passes (is_blocked_by paths (paths.clean path)) opts.exec_blocklist

two_tests :
    (a b : Bool) (path p : Text) (args out : List Text)
    → (if (if a then false else not b) then executed path args else exec_blocked path)
      ≡ executed p out
    → (a ≡ false) × (b ≡ false) × (path ≡ p) × (args ≡ out)
two_tests true b path p args out h = cc
two_tests false true path p args out h = cc
two_tests false false path p args out h = (refl, refl, cc, cc)

resolved-IsAllowed :
    (paths : Paths) (opts : TransportOptions) (name path : Text) (args out : List Text)
    (found : Option Text)
    → opts.exec_enabled ≡ true
    → resolve_executable paths name ≡ found
    → exec_resolved paths opts args found ≡ executed path out
    → IsAllowed paths opts name path × (args ≡ out)
unfolding exec_allowed
resolved-IsAllowed paths opts name path args out none on r h = cc
resolved-IsAllowed paths opts name path args out (some p) on r h =
    let (secure, free, same, kept) =
      two_tests (is_insecure_path paths (paths.clean p))
        (is_blocked paths (paths.clean p) opts.exec_blocklist) p path args out h in
    (
      subst (IsAllowed paths opts name) same (record {
        enabled = on;
        resolved = r;
        secure = secure;
        unlisted = is_blocked-Passes paths (paths.clean p) opts.exec_blocklist free;
      }),
      kept,
    )

-- A program is started only where that is enabled, at the path that its name resolves to, which is
-- in none of the directories that anyone may write to and is named by no item of the list of
-- blocked programs; its arguments are those of the entry.
pub exec_do-executed :
    (paths : Paths) (opts : TransportOptions) (name path : Text) (args out : List Text)
    → exec_do paths opts (some (name, args)) ≡ executed path out
    → IsAllowed paths opts name path × (args ≡ out)
unfolding exec_do
exec_do-executed paths opts name path args out h = one_test opts.exec_enabled refl h
  where
    one_test :
        (b : Bool)
        → opts.exec_enabled ≡ b
        → (if not b
            then exec_disabled
            else exec_resolved paths opts args (resolve_executable paths name))
          ≡ executed path out
        → IsAllowed paths opts name path × (args ≡ out)
    one_test false on e = cc
    one_test true on e =
        resolved-IsAllowed paths opts name path args out (resolve_executable paths name) on refl e
