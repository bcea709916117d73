-- ===== src/Pins/Check/Manifest.antt =====
-- scripts/check_pins.py: what `check` asks of the packages of the Lake manifest and of the requirements of the lakefile.
use sp1_lean.Base.{
  ◌-◌, Bool, true, false, ◌||◌, Option, none, some, List, [], ◌∷◌, ◌++◌, map, Text, codes, nat_beq,
  nat_eq, list_eq, option_eq, ◌==◌, if◌then◌else◌, or_else, ◌>>=◌, length, take, contains, gather,
}
use sp1_lean.Base.Dict.{Dict, lookup}
use sp1_lean.Regex.{Regex, seq, one, lit, plus, opt, is_digit}
use sp1_lean.Texts.{is_some, full_match, ends_with}
use sp1_lean.Flags.{update}
use sp1_lean.Pins.Sp1.{ensure, distinct, version_re, is_commit}
use sp1_lean.Pins.Check.Values.{
  Requirement, Package, CheckError, duplicate_package, duplicate_dependency, not_git,
  short_revision, not_required, missing, path_dependency, url_mismatch, moving_branch, disagree,
}

-- `s.removesuffix(".git")`
unfoldable pub remove_git : Text → Text
unfolding ends_with
remove_git url = if ends_with (codes ".git") url then take (length url - 4) url else url

unfoldable pub by_name : List Package → Dict Text Package
unfolding update
by_name packages = update [] (map (λ (p : Package). (p.name, p)) packages)

unfoldable pub package_errors : List Text → Package → List CheckError
unfolding is_commit
package_errors names p =
    ensure (p.kind == some (codes "git")) (not_git p.name)
    ++ (ensure (is_commit (or_else p.rev [])) (short_revision p.name)
        ++ ensure (p.inherited || contains names p.name) (not_required p.name))

unfoldable pub candidate_re : Regex
unfolding lit
candidate_re = opt (seq (lit (codes "-rc")) (plus is_digit))

-- `re.fullmatch(r"v\d+\.\d+\.\d+(?:-rc\d+)?", revision)`
unfoldable pub is_tag : Text → Bool
unfolding full_match
is_tag revision =
    is_some (full_match (seq (one (nat_beq b'v')) (seq version_re candidate_re)) revision)

abbrev pub nonempty : Option Text → Bool
nonempty none = false
nonempty (some []) = false
nonempty (some (_ ∷ _)) = true

abbrev pub url_of : Option Package → Option Text
url_of pinned = pinned >>= λ p. p.url

abbrev pub resolved : Bool → Option Package → Option Text
resolved commit pinned = pinned >>= λ p. if commit then p.rev else p.input_rev

unfoldable pub requirement_errors : Dict Text Package → Requirement → List CheckError
unfolding remove_git is_commit is_tag
requirement_errors manifest d =
    let revision = or_else d.rev [] in
    let pinned = lookup d.name manifest in
    ensure (is_some pinned) (missing d.name)
    ++ (ensure (nonempty d.git) (path_dependency d.name)
        ++ (ensure (remove_git (or_else d.git []) == remove_git (or_else (url_of pinned) []))
              (url_mismatch d.name)
            ++ (ensure (is_commit revision || is_tag revision) (moving_branch d.name)
                ++ ensure (some revision == resolved (is_commit revision) pinned)
                    (disagree d.name))))

unfoldable pub manifest_errors : List Requirement → List Package → List CheckError
unfolding package_errors requirement_errors distinct
manifest_errors requirements packages =
    let names = map (λ (d : Requirement). d.name) requirements in
    ensure (distinct (map (λ (p : Package). p.name) packages)) duplicate_package
    ++ (ensure (distinct names) duplicate_dependency
        ++ (gather (package_errors names) packages
            ++ gather (requirement_errors (by_name packages)) requirements))
