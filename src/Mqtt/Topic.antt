-- ===== src/Mqtt/Topic.antt =====
-- internal/mqtt/topic.go: topic filters.
pub mod Levels
use wrtdeck.Prelude.{
  ltb, if◌then◌else◌, is_empty, Text, text_eq, nat_key, text_key, codes, trim_space, split,
  contains, has_prefix, byte_length, ℕ, ◌+◌, Bool, true, false, not, ◌&&◌, ◌||◌, List, [], ◌∷◌,
}

abbrev pub slash : ℕ
slash = b'/'

abbrev pub hash : Text
hash = codes "#"

abbrev pub plus : Text
plus = codes "+"

-- The loop of `TopicMatches`, over what is left of both lists of levels.
unfoldable pub match_levels : List Text → List Text → Bool
match_levels [] ts = is_empty ts
match_levels (seg ∷ fs) [] = if text_eq seg hash then is_empty fs else false
match_levels (seg ∷ fs) (t ∷ ts) =
    let rest = match_levels fs ts in
    if text_eq seg hash
    then is_empty fs
    else if text_eq seg plus
    then rest
    else if text_eq seg t
    then rest
    else false

abbrev pub head_or_empty : List Text → Text
head_or_empty [] = []
head_or_empty (part ∷ parts) = part

-- A wildcard at the first level does not match a topic of the system, which begins with `$`.
abbrev pub hides_system : Text → Text → Bool
hides_system first topic_first =
    (text_eq first hash || text_eq first plus) && has_prefix topic_first (codes "$")

-- `filter` without its surrounding space.
abbrev pub matches_trimmed : Text → Text → Bool
matches_trimmed filter topic =
    let f = split slash filter in
    let t = split slash topic in
    if is_empty filter || is_empty topic
    then false
    else if hides_system (head_or_empty f) (head_or_empty t)
    then false
    else match_levels f t

unfoldable pub topic_matches : Text → Text → Bool
unfolding match_levels split has_prefix trim_space
topic_matches filter topic = matches_trimmed (trim_space filter) topic

-- The body of the loop of `ValidTopicFilter`, with whether the level is the last.
abbrev pub valid_level : Text → Bool → Bool
valid_level level last =
    if contains 0 level
    then false
    else if contains b'#' level && (not (text_eq level hash) || not last)
    then false
    else if contains b'+' level && not (text_eq level plus)
    then false
    else true

unfoldable pub valid_levels : List Text → Bool
unfolding contains
valid_levels [] = true
valid_levels (level ∷ levels) =
    if valid_level level (is_empty levels) then valid_levels levels else false

unfoldable pub valid_topic_filter : Text → Bool
unfolding valid_levels split trim_space byte_length
valid_topic_filter filter =
    let trimmed = trim_space filter in
    if is_empty trimmed || ltb 65535 (byte_length trimmed)
    then false
    else valid_levels (split slash trimmed)
