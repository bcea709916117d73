-- ===== src/Cache/Key/Layout.antt =====
-- The layout of build-cache keys, as the header of scripts/ci/cache_gc.py describes it:
-- `<prefix>-<kind>-<sha>-<run id>-<attempt>`, the kind perhaps missing or followed by `pr<N>`.
use sp1_lean.Base.{ℕ, ◌≡◌, ◌≢◌, true, Option, none, some, [], ◌++◌, Text, codes, all, length, Bool}
use sp1_lean.Regex.{is_digit, is_hex, is_alnum}
use sp1_lean.Cache.Key.{BuildKey}

pub data Mark : Type 0 where
  align_test test align core : Mark

abbrev pub mark_text : Mark → Text
mark_text align_test = codes "align-test"
mark_text test = codes "test"
mark_text align = codes "align"
mark_text core = codes "core"

pub record Layout : Type 0 where
  pub version : Text
  pub os : Text
  pub hash : Text
  pub mark : Option Mark
  pub pr : Option Text
  pub sha : Text
  pub run : Text
  pub attempt : Text

abbrev pub prefix_text : Layout → Text
prefix_text b = codes "sp1-v" ++ (b.version ++ (codes "-" ++ (b.os ++ (codes "-" ++ b.hash))))

abbrev pub mark_part : Option Mark → Text
mark_part none = []
mark_part (some m) = mark_text m ++ codes "-"

abbrev pub pull_part : Option Text → Text
pull_part none = []
pull_part (some n) = codes "pr" ++ (n ++ codes "-")

abbrev pub build_text : Layout → Text
build_text b = b.sha ++ (codes "-" ++ (b.run ++ (codes "-" ++ b.attempt)))

abbrev pub rest_text : Layout → Text
rest_text b = mark_part b.mark ++ (pull_part b.pr ++ build_text b)

-- The whole key.
abbrev pub key_text : Layout → Text
key_text b = prefix_text b ++ (codes "-" ++ rest_text b)

-- A nonempty run of a class.
pub record IsRun (p : ℕ → Bool) (w : Text) : Type 0 where
  pub within : all p w ≡ true
  pub nonempty : w ≢ []

pub record IsHash (n : ℕ) (w : Text) : Type 0 where
  pub within : all is_hex w ≡ true
  pub size : length w ≡ n

abbrev pub IsPull : Option Text → Type 0
IsPull none = Unit
IsPull (some n) = IsRun is_digit n

pub record IsLayout (b : Layout) : Type 0 where
  pub version : IsRun is_digit b.version
  pub os : IsRun is_alnum b.os
  pub hash : IsHash 64 b.hash
  pub pr : IsPull b.pr
  pub sha : IsHash 40 b.sha
  pub run : IsRun is_digit b.run
  pub attempt : IsRun is_digit b.attempt

abbrev pub kind_text : Option Mark → Text
kind_text none = codes "core"
kind_text (some m) = mark_text m

-- What `parse_key` is to return.
abbrev pub fields : Layout → BuildKey
fields b = record { prefix = prefix_text b; kind = kind_text b.mark; pr = b.pr; sha = b.sha }
