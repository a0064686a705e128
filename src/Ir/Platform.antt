-- ===== src/Ir/Platform.antt =====
-- The target platforms: ValidateTargetPlatform of internal/core/ir/platform.go.
use debianform.Base.{
  Text, text, Option, some, none, Bool, false, ◌&&◌, ◌||◌, if◌then◌else◌, text_eq,
}

-- The two distributions: the codename of a version, and the architectures.
debian_codename : Text → Option Text
debian_codename version =
    if text_eq version (text "12")
    then some (text "bookworm")
    else if text_eq version (text "13")
    then some (text "trixie")
    else none

ubuntu_codename : Text → Option Text
ubuntu_codename version =
    if text_eq version (text "24.04")
    then some (text "noble")
    else if text_eq version (text "26.04")
    then some (text "resolute")
    else none

supports : Option Text → Bool → Text → Bool
supports none known codename = false
supports (some wanted) known codename = known && text_eq codename wanted

-- Whether ValidateTargetPlatform returns no error.
unfoldable pub validate_target_platform : Text → Text → Text → Text → Bool
unfolding debian_codename ubuntu_codename supports
validate_target_platform distribution version architecture codename =
    if text_eq distribution (text "debian")
    then supports (debian_codename version)
        (text_eq architecture (text "amd64") || text_eq architecture (text "arm64")) codename
    else if text_eq distribution (text "ubuntu")
    then supports (ubuntu_codename version) (text_eq architecture (text "amd64")) codename
    else false
