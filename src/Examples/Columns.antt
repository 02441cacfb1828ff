-- ===== src/Examples/Columns.antt =====
-- Rows and answers as columns at concrete inputs, with arrow crates that take every column.
use vgi_reghive.Base.{slice, true, inl, ℕ, ◌≡◌, refl, sym, ap, inr, Option, none, some, List, []}
use vgi_reghive.Base.{◌∷◌, ◌++◌, map, arith, Bool-cases, Text, codes, false, length}
use vgi_reghive.Hive.Open.{open_blob, refusal, open_built}
use vgi_reghive.BaseBlock.{parse, read_fields, classify, fields_with, rd_u32, rd_i32, rd_u64}
use vgi_reghive.BaseBlock.{checksum_bad}
use vgi_reghive.BaseBlock.Checksum.{xor32_checksum, checksum_loop, sentinel}
use vgi_reghive.Base.Words.{from_le}
use vgi_reghive.Hive.Value.{decode, DecodedValue}
use vgi_reghive.Scalar.HiveValue
use vgi_reghive.Scalar.KeyInfo.{find_key}
use mathlib.Core.Option.{some-injective}
use vgi_reghive.Arrow.{ArrowCrate, Documented, Conform, HasField, Fields, field, no_fields, ◌▸◌}
use vgi_reghive.Arrow.{Arrays, no_arrays, ◌▹◌, array_len, structs, valid_rows, DataType, binary}
use vgi_reghive.Hive.Notatin.{Notatin, Result, CellValue}
use vgi_reghive.ArrowMap.{Row, push_all, empty_builder}
use vgi_reghive.ArrowMap.Schema.{row_schema}
use vgi_reghive.Table.HiveSubtree.{SubtreeProducer, on_bind, next_subtree_batch}
use vgi_reghive.Table.HiveSubtree.Selection.{selected, next_subtree_batch-select}
use vgi_reghive.ArrowMap.Finish.{finish, row_columns, finish-rows}
use vgi_reghive.Hive.Walk.{key_row}
use vgi_reghive.Scalar.Io.{Cell}
use vgi_reghive.Scalar.Answer.{Answers}
use vgi_reghive.Scalar.WellFormed
use vgi_reghive.Scalar.WellFormed.{well_formed_row}
use vgi_reghive.Scalar.HiveKey
use vgi_reghive.Scalar.HiveKey.{FoundKey, hive_key_row, sizes, all_values}
use vgi_reghive.Scalar.HiveValue.{HiveValueRow, hive_value_row}
use vgi_reghive.Scalar.Answers.{well_formed-Answers}
use vgi_reghive.Scalar.Agree.{GetsOwn, AmongValues, row_of, hive_value_row-hive_key}
use vgi_reghive.Examples.Samples.{blank_base, sample_notatin, run_key, run_value}
use vgi_reghive.Examples.Hives.{sample_context}
use vgi_reghive.Base.Strings.{text_eq}

abbrev rows_in : Arrays → ℕ
rows_in no_arrays = 0
rows_in (a ▹ cs) = array_len a

abbrev pub sample_arrow : ArrowCrate
sample_arrow = record {
  Batch = Arrays × ℕ;
  columns = λ b. b.0;
  num_rows = λ b. b.1;
  struct_new = λ fs cs nulls. some (structs fs cs (valid_rows (rows_in cs) nulls));
  struct_finish = λ fs cs valid. some (structs fs cs valid);
  try_new = λ fs cs. Result.ok (cs, rows_in cs);
}

rows_in-Conform :
    (n : ℕ) (fs : Fields) (cs : Arrays) → HasField fs → Conform n fs cs → rows_in cs ≡ n
rows_in-Conform n no_fields cs h c = absurd h
rows_in-Conform n (f ▸ fs) no_arrays h c = absurd c
rows_in-Conform n (field name t nullable metadata ▸ fs) (a ▹ cs) h c = c.0.same_len

pub sample_arrow-Documented : Documented sample_arrow
sample_arrow-Documented = record {
  struct_new_fits = λ n fs cs nulls h c l.
      ap (λ k. some (structs fs cs (valid_rows k nulls))) (rows_in-Conform n fs cs h c);
  struct_finish_fits = λ fs cs valid h c. refl;
  try_new_fits = λ n fs cs h c. ((cs, rows_in cs), refl, refl, rows_in-Conform n fs cs h c);
}

abbrev one_row : List Row
one_row = key_row sample_context run_key ∷ []

finish-rows_example :
    (b : sample_arrow.Batch) × (finish sample_arrow row_schema (push_all empty_builder one_row)
      ≡ Result.ok b)
    × (sample_arrow.columns b ≡ row_columns one_row)
    × (sample_arrow.num_rows b ≡ 1)
finish-rows_example = finish-rows sample_arrow one_row sample_arrow-Documented

abbrev sample_subtree : SubtreeProducer
sample_subtree = record {
  schema = on_bind;
  bytes = blank_base;
  key_path = codes "\\Software";
  apply_logs = true;
  recover = true;
  done = false;
}

next_subtree_batch-select_example :
    ((b : sample_arrow.Batch) × ((next_subtree_batch sample_arrow sample_notatin sample_subtree).0
        ≡ Result.ok (some b))
      × (sample_arrow.columns b ≡ row_columns (selected sample_notatin sample_subtree))
      × (sample_arrow.num_rows b ≡ length (selected sample_notatin sample_subtree)))
    × ((next_subtree_batch sample_arrow sample_notatin
          (next_subtree_batch sample_arrow sample_notatin sample_subtree).1).0
        ≡ Result.ok none)
next_subtree_batch-select_example =
    next_subtree_batch-select sample_notatin sample_arrow sample_subtree sample_arrow-Documented
      refl refl

-- The schema that the caller makes of a type.
abbrev result_schema : DataType → Fields
result_schema t = field (codes "result") t true [] ▸ no_fields

well_formed-Answers_example :
    Answers sample_arrow 2 WellFormed.fields
      (WellFormed.columns (map (well_formed_row sample_notatin) (some blank_base ∷ none ∷ [])))
      (true ∷ true ∷ [])
      (WellFormed.process sample_notatin sample_arrow
        (result_schema WellFormed.bound_type)
        binary
        (some blank_base ∷ none ∷ []))
well_formed-Answers_example =
    well_formed-Answers sample_notatin sample_arrow (result_schema WellFormed.bound_type) binary
      (some blank_base ∷ none ∷ []) sample_arrow-Documented (codes "result", [], refl) (inl refl)

-- A parser that finds the key with one value, whatever the path.
abbrev run_notatin : Notatin
run_notatin = record sample_notatin { get_key = λ p path. some run_key }

abbrev key_inputs : List (Cell × Cell)
key_inputs = (some blank_base, some (codes "\\Run")) ∷ (some blank_base, none) ∷ []

abbrev key_answers : List (Option FoundKey)
key_answers = map (λ row. hive_key_row run_notatin row.0 row.1) key_inputs

run_key-own :
    (name : Text) (v : CellValue)
    → run_key.get_value name ≡ some v
    → (before after : List CellValue) × (run_key.values ≡ before ++ v ∷ after)
run_key-own name v g = elim (Bool-cases (text_eq name (codes "Run"))) [
  | inl e ↦ ([], [], ap (λ w. w ∷ []) (some-injective run_value v (rw e at g)))
  | inr e ↦ absurd (ground (arith, rw e at g))
]

run_notatin-own : GetsOwn run_notatin
run_notatin-own parser path key e name v g =
    let same = sym (some-injective run_key key e) in rw same (run_key-own name v (rw same at g))

abbrev run_answer : HiveValueRow
run_answer = row_of (decode run_value)

run_value_found :
    hive_value_row run_notatin (some blank_base) (some (codes "\\Run")) (some (codes "Run"))
    ≡ some run_answer
unfolding hive_value_row HiveValue.lookup find_key open_blob refusal open_built parse classify
    read_fields fields_with slice rd_u32 rd_i32 rd_u64 from_le text_eq xor32_checksum checksum_loop
    sentinel checksum_bad
run_value_found = refl

hive_value_row-hive_key_example :
    (k : FoundKey) × (dv : DecodedValue) × (hive_key_row run_notatin
        (some blank_base)
        (some (codes "\\Run"))
      ≡ some k)
    × AmongValues dv k.decoded
    × (row_of dv ≡ run_answer)
hive_value_row-hive_key_example =
    hive_value_row-hive_key run_notatin (some blank_base) (some (codes "\\Run"))
      (some (codes "Run")) run_answer run_notatin-own run_value_found
