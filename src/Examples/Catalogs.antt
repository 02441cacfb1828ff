-- ===== src/Examples/Catalogs.antt =====
-- The texts for the catalog at small inputs, and the golden hives.
use vgi_reghive.Base.{◌≡◌, refl, true, some, List, [], ◌∷◌, ◌++◌, map, arith, ltb, unwrap_or}
use vgi_reghive.Base.{length, replicate, Bytes, Text, codes}
use vgi_reghive.Catalog.Sample.{compact_blob_sql, blob_loop, blob_step, flush, join, or_empty}
use vgi_reghive.Catalog.Sample.{zero_run}
use vgi_reghive.Catalog.Sample.Denotes.{compact_blob_sql-Denotes}
use vgi_reghive.Catalog.Sample.Parts.{BlobDenotes}
use vgi_reghive.Catalog.Meta.{keywords_json, agent_test_tasks_json, AgentTask, trimmed, split}
use vgi_reghive.Catalog.Meta.Json.{str, json_tokens}
use vgi_reghive.Catalog.Meta.RoundTrip.{array, pair_tokens, keywords_json-tokens}
use vgi_reghive.Catalog.Meta.RoundTrip.{agent_test_tasks_json-tokens}
use vgi_reghive.Base.Decimal.{decimal}
use vgi_reghive.ValueType.{hex_digit}
use vgi_reghive.HiveGen.Spec.{new_hive, new_key, with_value, with_subkey, dirty, key_last_written}
use vgi_reghive.HiveGen.Spec.{key_name}
use vgi_reghive.HiveGen.Layout.{key_values, layout_key, layout_orphans, layout_orphan}
use vgi_reghive.HiveGen.Layout.{layout_value, layout_values, layout_value_list, orphan_value}
use vgi_reghive.HiveGen.Layout.{orphan_values, orphan_value_list, layout_lf, lf_entries}
use vgi_reghive.HiveGen.Layout.{offset_list, emit, reserve, place, nk_cell, inline}
use vgi_reghive.HiveGen.Layout.Keys.{key_space}
use vgi_reghive.HiveGen.Build.{build, whole_layout, hbin_of, base_block, base_writes, hbin_writes}
use vgi_reghive.HiveGen.Build.{hbin_size, stored_checksum, filename_bytes}
use vgi_reghive.HiveGen.Build.Bin.{hive_space}
use vgi_reghive.HiveGen.Build.RoundTrip.{IsSpec}
use vgi_reghive.HiveGen.Fixtures.{software_spec, system_spec, sam_spec, sz, multi, software}
use vgi_reghive.Base.Utf8.{as_bytes}
use vgi_reghive.Base.Utf16.{encode_utf16, units_to_le}
use vgi_reghive.Base.Words.{to_le, from_le}
use vgi_reghive.Base.Writes.{write_each, write_at}
use vgi_reghive.BaseBlock.Checksum.{xor32_checksum, checksum_loop, sentinel}
use vgi_reghive.HiveGen.Cells.{alloc_cell, free_cell, nk_payload, vk_payload, cell_with_sign}
use vgi_reghive.HiveGen.Cells.{cell_size}

abbrev padded_bytes : Bytes
padded_bytes = 7 ∷ (replicate 40 0 ++ 9 ∷ [])

padded_bytes_sql :
    compact_blob_sql padded_bytes ≡ codes "unhex('07' || repeat('00', 40) || '09')::BLOB"
unfolding compact_blob_sql zero_run decimal blob_step hex_digit
padded_bytes_sql = refl

no_bytes_sql : compact_blob_sql [] ≡ codes "unhex('')::BLOB"
unfolding compact_blob_sql
no_bytes_sql = refl

compact_blob_sql-Denotes_example : BlobDenotes (compact_blob_sql padded_bytes) padded_bytes
compact_blob_sql-Denotes_example =
    compact_blob_sql-Denotes padded_bytes (ground arith) (omega arith)

abbrev two_keywords : Text
two_keywords = codes " run key, , a\\b "

two_keywords_json : keywords_json two_keywords ≡ codes "[\"run key\",\"a\\\\b\"]"
unfolding keywords_json
two_keywords_json = refl

keywords_json-tokens_example :
    json_tokens (keywords_json two_keywords)
    ≡ some (array (map (λ (k : Text). str k ∷ []) (trimmed (split b',' two_keywords))))
keywords_json-tokens_example = keywords_json-tokens two_keywords (omega arith)

abbrev one_task : List AgentTask
one_task = record { name = codes "probe"; prompt = codes "Say \"ok\"." } ∷ []

agent_test_tasks_json-tokens_example :
    json_tokens (agent_test_tasks_json one_task)
    ≡ some (
        array (
          map
            (λ (t : AgentTask). pair_tokens (codes "name") (codes "prompt") (t.name, t.prompt))
            one_task))
agent_test_tasks_json-tokens_example = agent_test_tasks_json-tokens one_task (ground arith)

-- The golden hives have the widths of the code; their cells come to little.
golden_space :
    (hive_space software_spec ≡ 1080) × (hive_space system_spec ≡ 568) × (hive_space sam_spec ≡ 544)
unfolding new_hive with_subkey with_value new_key key_space as_bytes key_name key_values sz multi
    encode_utf16 units_to_le to_le
golden_space = (refl, refl, refl)

software_spec-IsSpec : IsSpec software_spec
unfolding new_hive with_subkey with_value new_key key_last_written
software_spec-IsSpec = record {
  primary = omega arith;
  secondary = omega arith;
  minor = omega arith;
  written = omega arith;
  space = omega (arith, golden_space);
}

-- The SQL expression of the demo hive is shorter than 3000 characters.
demo_length : ltb (length (compact_blob_sql (unwrap_or software []))) 3000 ≡ true
unfolding software build compact_blob_sql blob_step zero_run decimal hex_digit whole_layout hbin_of
    base_block base_writes hbin_writes hbin_size stored_checksum filename_bytes write_each write_at
    layout_key layout_orphans layout_orphan layout_value layout_values layout_value_list
    orphan_value orphan_values orphan_value_list layout_lf lf_entries offset_list emit reserve place
    nk_cell alloc_cell free_cell nk_payload vk_payload cell_with_sign cell_size to_le from_le
    as_bytes dirty new_hive with_subkey with_value new_key key_name key_last_written key_values sz
    multi encode_utf16 units_to_le xor32_checksum checksum_loop sentinel inline blob_loop join
    or_empty flush
demo_length = refl
