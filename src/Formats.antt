-- ===== src/Formats.antt =====
-- formats/format.go: the registry of formats, and what a lock asks of one. Reading packages and
-- building trees are not part of this model.
use snailmail.Base.{if◌then◌else◌, Bytes, codes, ◌==ᵇ◌, Result, ok, err, Bool, true, false}

pub data Format : Type 0 where
  pypi : Format
  deb : Format
  helm : Format
  raw : Format
  rpm : Format
  apk : Format

unfoldable pub format_for : Bytes → Result Format
unfolding ◌==ᵇ◌
format_for name =
    if name ==ᵇ codes "pypi"
    then ok pypi
    else if name ==ᵇ codes "deb"
    then ok deb
    else if name ==ᵇ codes "helm"
    then ok helm
    else if name ==ᵇ codes "raw"
    then ok raw
    else if name ==ᵇ codes "rpm"
    then ok rpm
    else if name ==ᵇ codes "apk"
    then ok apk
    else err

unfoldable pub supports_distros : Format → Bool
supports_distros deb = true
supports_distros _ = false

-- `ArtifactCoordinate`: what tells the artifacts of one package version apart.
unfoldable pub artifact_coordinate : Format → Bytes → Bytes → Bytes
artifact_coordinate pypi filename architecture = filename
artifact_coordinate deb filename architecture = architecture
artifact_coordinate helm filename architecture = codes "chart"
artifact_coordinate raw filename architecture = filename
artifact_coordinate rpm filename architecture = architecture
artifact_coordinate apk filename architecture = architecture
