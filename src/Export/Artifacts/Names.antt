-- ===== src/Export/Artifacts/Names.antt =====
-- scripts/check_ensemble_export.py: `artifact_names`, with the names of `CHIPS` of scripts/check_release_surface.py.
use sp1_lean.Texts.{decimal}
use sp1_lean.Release.Chips.{Chip, chips}
use sp1_lean.Base.{
  ℕ, zero, suc, ◌+◌, Bool, ◌&&◌, List, [], ◌∷◌, ◌++◌, map, gather, Text, codes, leb, if◌then◌else◌,
}

abbrev pub first_names : List Text
first_names =
    codes "program_fixed.rs"
    ∷ codes "program_unused.rs"
    ∷ codes "program_empty.rs"
    ∷ codes "program_sparse.rs"
    ∷ codes "program_fixed.reference.json"
    ∷ codes "write_permission.rs"
    ∷ codes "write_permission_empty.rs"
    ∷ codes "write_permission.reference.json"
    ∷ codes "syscall_code_guard.rs"
    ∷ codes "syscall_code_guard.reference.json"
    ∷ codes "fixed_membership.rs"
    ∷ codes "fixed_membership.reference.json"
    ∷ codes "snapshot_registers.rs"
    ∷ codes "snapshot_registers_empty.rs"
    ∷ codes "snapshot_registers.reference.json"
    ∷ codes "target_registers.rs"
    ∷ codes "target_registers_empty.rs"
    ∷ codes "target_registers.reference.json"
    ∷ codes "static_membership.reference.json"
    ∷ codes "ram_membership.reference.json"
    ∷ codes "ram_rows.reference.json"
    ∷ codes "ram_byte.rs"
    ∷ codes "ram_word.rs"
    ∷ codes "ram_source.rs"
    ∷ codes "ram_target.rs"
    ∷ codes "ram_source_membership.rs"
    ∷ codes "ram_target_membership.rs"
    ∷ []

abbrev pub static_cases : List Text
static_cases =
    codes "empty" ∷ codes "singleton" ∷ codes "uneven" ∷ codes "duplicates" ∷ codes "zeroes" ∷ []

abbrev pub chip_names : List Text
chip_names = map (λ (c : Chip). c.name) chips

abbrev pub byte_operations : List Text
byte_operations =
    codes "and" ∷ codes "or" ∷ codes "xor" ∷ codes "u8_range" ∷ codes "ltu" ∷ codes "msb" ∷ []

abbrev pub bumps : List Text
bumps = codes "memory_bump.rs" ∷ codes "state_bump.rs" ∷ []

abbrev pub call_names : List Text
call_names = codes "syscall_instruction.rs" ∷ codes "core_syscall.rs" ∷ codes "host_call.rs" ∷ []

abbrev pub control_names : List Text
control_names =
    codes "host_halt.rs"
    ∷ codes "host_enter.rs"
    ∷ codes "host_control.reference.json"
    ∷ codes "host_commit_terminal.rs"
    ∷ codes "host_deferred_terminal.rs"
    ∷ []

abbrev pub hint_names : List Text
hint_names =
    codes "host_hint_length_empty.rs"
    ∷ codes "host_hint_length.rs"
    ∷ codes "host_hint_read.rs"
    ∷ codes "host_hints.reference.json"
    ∷ []

abbrev pub assembly_names : List Text
assembly_names =
    codes "installed_assembly.rs"
    ∷ codes "installed_assembly.reference.json"
    ∷ codes "installed_empty.rs"
    ∷ codes "installed_empty.reference.json"
    ∷ codes "opcodes.reference.json"
    ∷ codes "installed_hint_read.rs"
    ∷ codes "installed_hint_read.reference.json"
    ∷ codes "installed_hint_word_padding.rs"
    ∷ codes "installed_hint_word_padding.reference.json"
    ∷ []

abbrev pub case_names : List Text
case_names =
    codes "installed_stopped_zero"
    ∷ codes "installed_stopped_wide"
    ∷ codes "installed_stopped_changed"
    ∷ codes "installed_fabricated_halt"
    ∷ codes "installed_halt_zero"
    ∷ codes "installed_halt_wide"
    ∷ codes "installed_halt_max"
    ∷ codes "installed_commit_repeat"
    ∷ codes "installed_deferred_repeat"
    ∷ codes "installed_commit_partial_halt"
    ∷ codes "installed_commit_complete_halt"
    ∷ []

abbrev pub later_cases : List Text
later_cases =
    codes "installed_ordinary"
    ∷ codes "installed_ordinary_prefix"
    ∷ codes "installed_ordinary_suffix"
    ∷ codes "installed_ordinary_empty"
    ∷ codes "installed_hints_empty"
    ∷ codes "installed_hints_tail"
    ∷ codes "installed_hints_aligned"
    ∷ codes "installed_enter"
    ∷ []

abbrev pub is_upper : ℕ → Bool
is_upper c = leb b'A' c && leb c b'Z'

abbrev pub lower : ℕ → ℕ
lower c = if is_upper c then c + 32 else c

-- An underscore before every capital but a first one, and all in lower case.
abbrev pub snake_rest : Text → Text
snake_rest [] = []
snake_rest (c ∷ s) = if is_upper c then b'_' ∷ lower c ∷ snake_rest s else c ∷ snake_rest s

abbrev pub snake : Text → Text
snake [] = []
snake (c ∷ s) = lower c ∷ snake_rest s

-- `range(n)`
abbrev pub upto : ℕ → List ℕ
upto zero = []
upto (suc n) = upto n ++ (n ∷ [])

-- `[name + suffix for name in names for suffix in suffixes]`
abbrev pub with_suffixes : List Text → List Text → List Text
with_suffixes suffixes = gather (λ name. map (λ suffix. name ++ suffix) suffixes)

abbrev pub both : List Text
both = codes ".rs" ∷ codes ".reference.json" ∷ []

unfoldable pub artifact_names : List Text
unfolding decimal
artifact_names =
    first_names
    ++ (map (λ n. codes "static_" ++ n)
          (with_suffixes (codes ".rs" ∷ codes "_unused.rs" ∷ []) static_cases)
        ++ (map (λ n. snake n ++ codes "_instruction.rs") chip_names
            ++ (map (λ n. n ++ codes "_byte_provider.rs") byte_operations
                ++ (map (λ n. codes "range_" ++ (decimal n ++ codes "_provider.rs")) (upto 17)
                    ++ (bumps
                        ++ (call_names
                            ++ (control_names
                                ++ (map (λ n. codes "host_" ++ n)
                                      (gather
                                        (λ bank.
                                          map
                                            (λ slot.
                                              bank ++ (codes "_" ++ (decimal slot ++ codes ".rs")))
                                            (upto 8))
                                        (codes "commit" ∷ codes "deferred" ∷ []))
                                    ++ (hint_names
                                        ++ (codes "hint_sources.reference.json"
                                            ∷ (map (λ n. codes "hint_" ++ n)
                                                  (with_suffixes
                                                    (codes ".rs"
                                                      ∷ codes "_unused.rs"
                                                      ∷ codes "_empty.rs"
                                                      ∷ [])
                                                    (codes "nodes" ∷ codes "words" ∷ []))
                                                ++ (assembly_names
                                                    ++ (with_suffixes both case_names
                                                        ++ with_suffixes both
                                                            later_cases)))))))))))))
