-- ===== src/Transport/Exec.antt =====
-- internal/transport/exec.go: which programs may run. The functions of path/filepath and os/exec are a
-- parameter.
pub mod Allowed
use wrtdeck.Prelude.{
  if◌then◌else◌, is_empty, Text, text_eq, nat_key, text_key, codes, trim_space, has_prefix,
  lower_text, item, Bool, false, not, ◌&&◌, ◌||◌, Option, none, some, List, [], ◌∷◌, ◌++◌,
}
use wrtdeck.Transport.{TransportOptions}

pub record Paths : Type 0 where
  pub clean : Text → Text
  pub base : Text → Text
  pub is_abs : Text → Bool
  pub abs : Text → Option Text
  pub look_path : Text → Option Text
  pub equal_fold : Text → Text → Bool

unfoldable pub insecure_dirs : List Text
insecure_dirs =
    codes "/tmp" ∷ codes "/var/tmp" ∷ codes "/dev/shm" ∷ codes "/run" ∷ codes "/var/run" ∷ []

unfoldable pub is_under : Text → List Text → Bool
is_under path [] = false
is_under path (dir ∷ dirs) =
    text_eq path dir || has_prefix path (dir ++ b'/' ∷ []) || is_under path dirs

unfoldable pub is_insecure_path : Paths → Text → Bool
unfolding insecure_dirs is_under
is_insecure_path paths path = is_under (paths.clean path) insecure_dirs

abbrev pub found_as : Paths → Text → Option Text → Bool
found_as paths clean none = false
found_as paths clean (some absolute) = text_eq (paths.clean absolute) clean

abbrev pub looked_up : Paths → Option Text → Option Text
looked_up paths none = none
looked_up paths (some resolved) = paths.abs resolved

-- Whether one item of the list names the program.
unfoldable pub is_blocked_by : Paths → Text → Text → Bool
is_blocked_by paths clean raw =
    let item = trim_space raw in
    not (is_empty item)
    && (paths.equal_fold item (lower_text (paths.base clean))
        || (if paths.is_abs item
            then text_eq (paths.clean item) clean
            else found_as paths clean (looked_up paths (paths.look_path item))))

unfoldable pub is_blocked : Paths → Text → List Text → Bool
unfolding is_blocked_by
is_blocked paths clean [] = false
is_blocked paths clean (name ∷ names) =
    is_blocked_by paths clean name || is_blocked paths clean names

unfoldable pub exec_allowed : Paths → Text → List Text → Bool
unfolding is_insecure_path is_blocked
exec_allowed paths path blocklist =
    let clean = paths.clean path in
    if is_insecure_path paths clean then false else not (is_blocked paths clean blocklist)

abbrev pub resolved_or : Text → Option Text → Text
resolved_or target none = target
resolved_or target (some resolved) = resolved

abbrev pub clean_found : Paths → Option Text → Option Text
clean_found paths none = none
clean_found paths (some absolute) = some (paths.clean absolute)

unfoldable pub resolve_executable : Paths → Text → Option Text
resolve_executable paths name =
    let target = trim_space name in
    if is_empty target
    then none
    else clean_found paths (
        paths.abs
          (if paths.is_abs target then target else resolved_or target (paths.look_path target)))

pub data ExecAnswer : Type 0 where
  exec_missing exec_disabled unresolved : ExecAnswer
  exec_blocked : (path : Text) → ExecAnswer
  executed : (path : Text) → (args : List Text) → ExecAnswer

abbrev pub exec_resolved : Paths → TransportOptions → List Text → Option Text → ExecAnswer
exec_resolved paths opts args none = unresolved
exec_resolved paths opts args (some path) =
    if exec_allowed paths path opts.exec_blocklist then executed path args else exec_blocked path

-- `Do` up to the program that it starts, with its arguments.
unfoldable pub exec_do : Paths → TransportOptions → Option (Text × List Text) → ExecAnswer
unfolding resolve_executable exec_allowed
exec_do paths opts none = exec_missing
exec_do paths opts (some (executable, args)) =
    if not opts.exec_enabled
    then exec_disabled
    else exec_resolved paths opts args (resolve_executable paths executable)
