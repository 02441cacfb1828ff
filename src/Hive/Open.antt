-- ===== src/Hive/Open.antt =====
-- `open_blob` of crates/reghive-worker/src/hive/open.rs.
use mathlib.Core.Option
use vgi_reghive.Base.{Bool, false, Option, none, some, List, [], ◌++◌, if◌then◌else◌, unwrap_or}
use vgi_reghive.Base.{Bytes, Text, codes}
use vgi_reghive.Hive.Notatin.{Notatin, Result, ok, err}
use vgi_reghive.BaseBlock.Kinds.{WellFormedKind}
use vgi_reghive.BaseBlock.Sniff
use vgi_reghive.BaseBlock.{BaseBlock, parse, is_dirty, hive_type}

pub record OpenError : Type 0 where
  pub kind : WellFormedKind
  pub message : Text

pub record Opened (P : Type 0) : Type 0 where
  pub parser : P
  pub base : Option BaseBlock
  pub kind : WellFormedKind
  pub root_name : Text
  pub hive_type : Text
  pub was_dirty : Bool

-- The message with which a verdict refuses the blob; `none` lets it through.
unfoldable pub refusal : WellFormedKind → Option Text
refusal WellFormedKind.ok = none
refusal WellFormedKind.bad_checksum = none
refusal WellFormedKind.truncated = some (codes "blob too short to be a hive")
refusal WellFormedKind.bad_signature = some (codes "not a regf hive (bad signature)")
refusal WellFormedKind.not_a_hive = some (codes "regf file is not a primary hive")
refusal WellFormedKind.short_base_block = some (codes "incomplete base block")
refusal WellFormedKind.bin_size_overrun = some (codes "hive-bins size overruns the blob")

unfoldable pub base_is_dirty : Option BaseBlock → Bool
base_is_dirty base = unwrap_or (Option.map is_dirty base) false

unfoldable pub type_label : Option BaseBlock → Text → Text
type_label base root_name =
    unwrap_or (Option.map (λ b. Sniff.label (hive_type b (some root_name))) base) (codes "UNKNOWN")

module _ (N : Notatin) where
  open N use {Parser, build, root_key_name}

  opened : Parser → Option BaseBlock → WellFormedKind → Opened Parser
  opened parser base kind =
      let root_name = unwrap_or (root_key_name parser) [] in
      record {
        parser = parser;
        base = base;
        kind = kind;
        root_name = root_name;
        hive_type = type_label base root_name;
        was_dirty = base_is_dirty base;
      }

  unfoldable pub open_built :
      Result Text Parser → Option BaseBlock → WellFormedKind → Result OpenError (Opened Parser)
  unfolding opened
  open_built (ok parser) base kind = ok (opened parser base kind)
  open_built (err e) base kind =
      err (record { kind = WellFormedKind.truncated; message = codes "notatin: " ++ e })

  unfoldable pub open_blob : Bytes → Bool → Bool → List Bytes → Result OpenError (Opened Parser)
  unfolding open_built refusal
  open_blob bytes apply_logs recover_deleted logs =
      let (base, kind) = parse bytes in
      elim (refusal kind) [
        | some message ↦ err (record { kind = kind; message = message })
        | none ↦
            open_built (build bytes recover_deleted (if apply_logs then logs else [])) base kind
      ]
