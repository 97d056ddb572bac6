-- ===== src/Version.antt =====
-- pkg/version: the released version of release.go, with the build information of version.go and base.go.
use cloudtty.Base.{ℕ, String, ◌<>◌, Option, none, some, ◌≡◌, refl}
use cloudtty.Base.Int.{pos}
use cloudtty.Base.Result.{Result, ok, err}
use cloudtty.Text.Decimal.{show_int}

-- What the code reads of `utilversion.Version`.
pub record Version : Type 0 where
  pub major : ℕ
  pub minor : ℕ
  pub patch : ℕ

-- The pointer that `ReleaseVersion` embeds.
pub record ReleaseVersion : Type 0 where
  pub version : Option Version

-- The verb %d.
abbrev digits : ℕ → String
digits n = show_int (pos n)

unfoldable pub release_text : ℕ → ℕ → String → String
release_text major minor rest = "v" <> digits major <> "." <> digits minor <> "." <> rest

unfoldable pub first_minor_release : ReleaseVersion → String
unfolding release_text
first_minor_release r = elim r.version [
  | none ↦ "<nil>"
  | some v ↦ release_text v.major v.minor "0"
]

unfoldable pub patch_release : ReleaseVersion → String
unfolding release_text
patch_release r = elim r.version [
  | none ↦ "<nil>"
  | some v ↦ release_text v.major v.minor (digits v.patch)
]

-- `utilversion.ParseGeneric` is given.
module _ (parse_generic : String → Result Version) where
  unfoldable pub parse_git_version : String → Result ReleaseVersion
  parse_git_version text = elim (parse_generic text) [
    | err e ↦ err e
    | ok v ↦ ok (record { version = some v })
  ]

  parse_git_version-ok :
      (text : String) (v : Version)
      → parse_generic text ≡ ok v
      → parse_git_version text ≡ ok (record { version = some v })
  unfolding parse_git_version
  parse_git_version-ok text v h = rw (h, parse_git_version) refl

  -- A text of three numbers is read as them.
  abbrev pub ReadsRelease : Type 0
  ReadsRelease =
      (major minor patch : ℕ)
      → parse_generic ("v" <> digits major <> "." <> digits minor <> "." <> digits patch)
        ≡ ok (record { major = major; minor = minor; patch = patch })

  -- The patch release of a version is read back as this version, and the first minor release of any
  -- version is read as the version with patch number 0, whose own first minor release and patch release
  -- it is. `ParseGeneric` is assumed to read three numbers.
  pub parse_git_version-releases :
      ReadsRelease
      → (v : Version)
      → let r : ReleaseVersion = record { version = some v } in
        let first : ReleaseVersion = record { version = some (record v { patch = 0 }) } in
        (parse_git_version (patch_release r) ≡ ok r)
        × (parse_git_version (first_minor_release r) ≡ ok first)
        × (first_minor_release first ≡ first_minor_release r)
        × (patch_release first ≡ first_minor_release r)
  unfolding patch_release first_minor_release show_int
  parse_git_version-releases reads v = (
    parse_git_version-ok _ v (reads v.major v.minor v.patch),
    parse_git_version-ok _ (record v { patch = 0 }) (reads v.major v.minor 0),
    refl,
    refl,
  )

-- `Info`, and `Get`, whose arguments are the variables of base.go, which the linker may set, and those
-- of Go's runtime.
pub record Info : Type 0 where
  pub git_version : String
  pub git_commit : String
  pub git_tree_state : String
  pub build_date : String
  pub go_version : String
  pub compiler : String
  pub platform : String

unfoldable pub get_info :
    String → String → String → String → String → String → String → String → Info
get_info version commit tree_state date go_version compiler os arch = record {
  git_version = version;
  git_commit = commit;
  git_tree_state = tree_state;
  build_date = date;
  go_version = go_version;
  compiler = compiler;
  platform = os <> ("/" <> arch);
}
