-- ===== src/Text/Case.antt =====
-- Case and white space of package strings: the ASCII path is written out, the other is a parameter.
use xdauth.Prelude.{ℕ, ◌+◌, ◌-◌, ◌&&◌, map, leb, if◌then◌else◌}
use xdauth.Platform.{Platform}
use xdauth.Text.{Text, is_ascii, is_space, trim_start, trim_end}

abbrev pub lower : ℕ → ℕ
lower c = if leb 65 c && leb c 90 then c + 32 else c

abbrev pub upper : ℕ → ℕ
upper c = if leb 97 c && leb c 122 then c - 32 else c

module _ ⦃sys : Platform⦄ where
  unfoldable pub to_lower : Text → Text
  to_lower t = if is_ascii t then map lower t else sys.lower_wide t

  unfoldable pub to_upper : Text → Text
  to_upper t = if is_ascii t then map upper t else sys.upper_wide t

  unfoldable pub trim_space : Text → Text
  trim_space t = if is_ascii t then trim_end is_space (trim_start is_space t) else sys.trim_wide t
