-- ===== src/BuildInfo/Laws.antt =====
-- What internal/buildinfo/buildinfo.go promises of a build: no field is empty.
use arex.Prelude.{
  false, ◌∙◌, ◌≡◌, refl, Bool, true, ◌&&◌, String, str_eq, nonempty, [], ◌∷◌, Option, none, some,
  arith, if◌then◌else◌,
}
use arex.Prelude.Assoc.{Map}
use arex.BuildInfo.{
  Build, DebugInfo, or_unknown, read_setting, read_settings, read_debug_info, load_build,
}

abbrev pub is_stamped : Build → Bool
is_stamped b = nonempty b.revision && nonempty b.modified && nonempty b.built

abbrev pub is_filled : Build → Bool
is_filled b = is_stamped b && nonempty b.version && nonempty b.go_version

abbrev pub values_nonempty : Map String → Bool
values_nonempty [] = true
values_nonempty ((key, value) ∷ rest) = nonempty value && values_nonempty rest

abbrev pub stamps_nonempty : Option DebugInfo → Bool
stamps_nonempty none = true
stamps_nonempty (some info) = values_nonempty info.settings

if_either : (P : Build → Type 0) (test : Bool) (x y : Build) → P x → P y → P (if test then x else y)
if_either P true x y p q = p
if_either P false x y p q = q

-- What a setting may change and what it keeps.
abbrev Keeps : Build → Build → Type 0
Keeps b b' = (is_stamped b' ≡ true) × (b'.version ≡ b.version) × (b'.go_version ≡ b.go_version)

read_setting-Keeps :
    (key value : String) (b : Build)
    → nonempty value ≡ true
    → is_stamped b ≡ true
    → Keeps b (read_setting key value b)
unfolding read_setting
read_setting-Keeps key value b full filled =
    if_either (Keeps b) (str_eq key "vcs.revision") _ _ (ground arith, refl, refl)
      (if_either (Keeps b) (str_eq key "vcs.modified") _ _ (ground arith, refl, refl)
        (if_either (Keeps b) (str_eq key "vcs.time") _ _ (ground arith, refl, refl)
          (filled, refl, refl)))

read_settings-Keeps :
    (settings : Map String) (b : Build)
    → values_nonempty settings ≡ true
    → is_stamped b ≡ true
    → Keeps b (read_settings settings b)
unfolding read_settings
read_settings-Keeps [] b full filled = (filled, refl, refl)
read_settings-Keeps ((key, value) ∷ rest) b full filled =
    let (one, version, go_version) = read_setting-Keeps key value b (ground arith) filled in
    let (all, same_version, same_go) =
      read_settings-Keeps rest (read_setting key value b) (ground arith) one in
    (all, same_version ∙ version, same_go ∙ go_version)

filled_or : (b : Bool) (s : String) → nonempty s ≡ b → nonempty (if b then s else "unknown") ≡ true
filled_or true s e = e
filled_or false s e = refl

all_three : (a b c : Bool) → a ≡ true → b ≡ true → c ≡ true → a && b && c ≡ true
all_three a b c p q r = ground arith

read_debug_info_stamped :
    (info : Option DebugInfo) (b : Build)
    → stamps_nonempty info ≡ true
    → is_stamped b ≡ true
    → is_stamped (read_debug_info info b) ≡ true
unfolding read_debug_info
read_debug_info_stamped none b full filled = filled
read_debug_info_stamped (some info) b full filled =
    (read_settings-Keeps info.settings
      (record b { version = if nonempty b.version then b.version else info.main_version }) full
      filled).0

-- Whatever the link-time version, the runtime's version and the binary's record are, no field of the
-- build is empty, provided that no setting of the record is empty.
pub load_build_filled :
    (version go_version : String) (info : Option DebugInfo)
    → stamps_nonempty info ≡ true
    → is_filled (load_build version go_version info) ≡ true
unfolding load_build
load_build_filled version go_version info full =
    let start : Build = record {
      version = version;
      revision = "unknown";
      go_version = go_version;
      modified = "unknown";
      built = "unknown";
    } in
    let b : Build = read_debug_info info start in
    all_three (is_stamped b) (nonempty (or_unknown b.version)) (nonempty (or_unknown b.go_version))
      (read_debug_info_stamped info start full refl) (filled_or (nonempty b.version) b.version refl)
      (filled_or (nonempty b.go_version) b.go_version refl)
