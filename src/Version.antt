-- ===== src/Version.antt =====
-- The version of include/shimmy/version.hpp.
use Prim.Native.Nat.{bit_or}
use shimmy.Common.{ℕ, ◌*◌, ◌^◌, ◌≡◌, refl, ◌++◌, u32}
use shimmy.Common.Texts.{Text, codes, decimal_from, decimal}

abbrev version_major : ℕ
version_major = 0

abbrev version_minor : ℕ
version_minor = 0

abbrev version_patch : ℕ
version_patch = 0

-- `(version_major << 16) | (version_minor << 8) | version_patch`
abbrev pub version_number : ℕ
version_number =
    bit_or (bit_or (u32 (version_major * 2 ^ 16)) (u32 (version_minor * 2 ^ 8))) version_patch

abbrev version_string : Text
version_string = codes "0.0.0"

-- The text of the version is that of its numbers.
version_string-parts :
    version_string
    ≡ decimal version_major
      ++ codes "."
      ++ decimal version_minor
      ++ codes "."
      ++ decimal version_patch
unfolding decimal_from
version_string-parts = refl
