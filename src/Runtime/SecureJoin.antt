-- ===== src/Runtime/SecureJoin.antt =====
-- secureJoin of pkg/runtime/fs.go: a container path is resolved against the rootfs, symbolic links
-- included.
pub mod Remaining
pub mod Links
pub mod Stays
pub mod Inside
pub mod Plain
mod Examples
use lightpod.Base.{
  ℕ, zero, suc, Bool, true, false, ◌||◌, if◌then◌else◌, Option, none, some, List, [], ◌∷◌, Result,
  ok, err, msg,
}
use lightpod.Base.Text.{Bytes, same, trim_prefix, cut}
use lightpod.Oci.Path.{slash, dot, dot_dot, is_abs, clean, join, dir, is_within}

-- What os.Lstat and os.Readlink tell of a path, while the walk runs. `lstat` is `none` on an error,
-- and else whether the path is a symbolic link.
pub record Tree : Type 0 where
  pub lstat : Bytes → Option Bool
  pub readlink : Bytes → Option Bytes

-- maxSymlinkDepth + 1: the rounds that the loop makes before it gives up
abbrev pub max_rounds : ℕ
max_rounds = 33

abbrev slashes : Bytes
slashes = slash ∷ []

-- remaining behind a link
abbrev pub behind_link : Bytes → Bytes → Bytes
behind_link link remaining = slash ∷ trim_prefix (join link remaining) slashes

-- How a round ends: with `current` and `remaining` for the next one, with a result, or with a link
-- that cannot be read.
pub data Round : Type 0 where
  next_round : Bytes → Bytes → Round
  found : Bytes → Round
  broken : Round

abbrev pub resume : (Bytes → Bytes → Result Bytes) → Round → Result Bytes
resume next (next_round current remaining) = next current remaining
resume next (found path) = ok path
resume next broken = err (msg "reading symlink")

module _ (tree : Tree) (rootfs : Bytes) where
  abbrev pub follow : Bytes → Bytes → Option Bytes → Round
  follow current remaining none = broken
  follow current remaining (some link) =
      next_round (if is_abs link then rootfs else current) (behind_link link remaining)

  abbrev pub visit : Bytes → Bytes → Bytes → Option Bool → Round
  visit current next remaining none = found (join next remaining)
  visit current next remaining (some false) = next_round next remaining
  visit current next remaining (some true) = follow current remaining (tree.readlink next)

  -- The body of the loop, with the part that was cut off.
  unfoldable pub step : Bytes → Bytes → Bytes → Round
  unfolding same
  step current part remaining =
      if same part [] || same part dot
      then next_round current remaining
      else if same part dot_dot
      then next_round (if same current rootfs then current else dir current) remaining
      else visit current (join current part) remaining (tree.lstat (join current part))

  abbrev pub cut_step : Bytes → Bytes × Bytes × Bool → Round
  cut_step current (part, rest, _) = step current part rest

  unfoldable pub round : Bytes → Bytes → Round
  unfolding step trim_prefix cut
  round current remaining = cut_step current (cut (trim_prefix remaining slashes) slash)

  abbrev pub finish : Bytes → Result Bytes
  finish current =
      if is_within rootfs current then ok current else err (msg "path escapes the container root")

  unfoldable pub walk : ℕ → Bytes → Bytes → Result Bytes
  unfolding same
  walk zero current remaining =
      if same remaining [] || same remaining slashes
      then finish current
      else err (msg "too many symbolic links")
  walk (suc rounds) current remaining =
      if same remaining [] || same remaining slashes
      then finish current
      else resume (walk rounds) (round current remaining)

  unfoldable pub secure_join : Bytes → Result Bytes
  unfolding walk
  secure_join unsafe_path = walk max_rounds rootfs (clean (slash ∷ unsafe_path))
