-- ===== src/Lib.antt =====
-- The Python tooling of sp1-lean: the scripts that keep the repository's build caches, gate its CI, judge
-- the axioms its Lean library rests on, check its pins and its release surface, analyse and profile its build, prepare
-- its Sail model and stage its exported circuits.
--
-- Parts and files:
--   * Cache models the two build-cache scripts. Cache/Key is `parse_key` with its two regular
--     expressions (scripts/ci/cache_gc.py and, word for word the same, scripts/ci/cache_pick.py),
--     on the regular expressions of Regex; Cache/Entry is an entry of the listing and `_when`;
--     Cache/Gc is `plan` of scripts/ci/cache_gc.py, one function per rule, each giving the calls of
--     `condemn` that it makes in order; Cache/Sweep is `main` of scripts/ci/cache_gc.py, with the deletions as
--     steps on the listing; Cache/Pick is `pick` of scripts/ci/cache_pick.py. The
--     scripts meet only in the listing and in the layout of the keys.
--   * Gate is `validate` of scripts/ci/check_full_validation.py, the last job of CI.
--   * Build is part of scripts/build_semantics.py: Build/Graph is `closure`, Build/Layers the table
--     `LAYERS`, `classify_layer`, `load_strata` and `classify_stratum`, Build/Sources `read_graph` and `read_touched`,
--     Build/Log the readers of `lake` logs and `timeline`, Build/Critical `critical_path` (its search as a stack of
--     items, then the weights), and Build/Report what `main` computes of the closures of the headline theorems.
--   * Profile is scripts/profile_aggregate.py: Profile/Seconds reads a duration, Profile/Cumulative is
--     `parse_cumulative` and `check_log`, Profile/Stats is `stats`, Profile/Summary reads logs and the rows of
--     a summary, Profile/Report has the pillars, the table and the entries of the report. One text is read in one step; a
--     file that cannot be read is None.
--   * Pins is scripts/check_pins.py: Pins/Sp1 is `sp1_pin_errors`, Pins/Sail `tree_hash` and `validate_sail`, over
--     a tree of files, and Pins/Check is `check`, in the order of its requirements: the manifest of Lake, the
--     backend of the Rust code, the provenance, the libraries and their options.
--   * Prepare is scripts/prepare_sail.py: `install`, which stages a tree, replaces the old one and restores it when
--     that fails, the cleanup behind it, and the modes of `main`. It judges trees by `validate_sail` of Pins. What the file system and the
--     generator do is an input.
--   * Release is scripts/check_release_surface.py: Release.antt is `coverage_errors`, Release/Chips the table
--     `CHIPS`, which Export shares, and Release/Surface `instruction_export_errors` and `main`.
--   * Trust is scripts/check_trust.py: Trust/Policy is `load_policy` and `classify`, Trust/Scan is
--     `validate_report` and `evaluate`, Trust/Run the source modules, the pinned scanner, `scan` and `main`. The
--     report of the Lean scanner is an input, as a JSON value of Json.
--   * Export is part of scripts/check_ensemble_export.py: Export/Stage is `stage_inputs`, over a directory as
--     a dict of files, Export/RustLog `check_rust_log` and `rust_groups`, Export/Artifacts
--     `artifact_names`, `artifact_hashes` and `verify`, which stages what two generations agree on.
--   * Flags is scripts/lean_flags.py: Flags.antt is `_flatten`, `_render` and `flags_for`, Flags/Toml the small reader
--     `parse_minimal_toml`, whose reference `current` to a table is the place of the table, and Flags/Read takes what
--     `flags_for` expects from the dict that was read. Pins compares the settings it defines.
--   * Regex is Python's backtracking `re.match` for the expressions the scripts use: the order of
--     the alternatives and the greedy and lazy runs are kept. Texts are lists of code points; the classes of the
--     expressions are read as ASCII. Texts has the searches of `re` and the methods of `str`.
--   * Base holds the shared lists, texts, comparisons, dictionaries in insertion order, results with
--     errors, and Python's `max` and `sorted`. A set of the source is a list whose members count.
--
-- Bounds and fuel: a moment is a number of microseconds since the year 1, without a bound; the numbers of a JSON
-- value are natural. Seconds are whole numbers of a fixed small unit in place of floats, so that sums are exact; the weights
-- of a path are natural. The loop of `closure` runs on fuel, one more than the imports of all modules. The search of
-- `critical_path` runs on fuel that is an argument, and the model gives None where the fuel does not suffice; without
-- cycles among the modules some fuel does. Numbers are printed with the number itself as fuel, and
-- the loop over the elements of an array in Flags/Toml runs on the length of its text, since each element takes two characters;
-- every other function is structurally recursive.
--
-- Not modelled: the calls of `gh`, `git`, `lake` and `cargo`, argument parsing and printing in the `main`
-- functions, which only pass on what the modelled functions return; the writing of Markdown and the comparison of two builds in
-- scripts/build_semantics.py; the reader `tomllib`, a library; the generation and the inputs of
-- scripts/check_ensemble_export.py; the scripts that check examples, backend gadgets and documents. SHA-256 is a
-- parameter, of which only the form of its digests is assumed. The patterns of `fnmatch` have no brackets.
-- The Lean library itself is checked by Lean, and the shell scripts are calls of other programs.
pub mod Base
pub mod Texts
pub mod Regex
pub mod Json
pub mod Cache
pub mod Gate
pub mod Build
pub mod Trust
pub mod Export
pub mod Flags
pub mod Profile
pub mod Pins
pub mod Prepare
pub mod Release
