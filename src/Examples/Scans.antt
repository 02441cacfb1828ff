-- ===== src/Examples/Scans.antt =====
-- Scans of a glob at a concrete file system, with a concrete encoding of cursors.
use vgi_reghive.Cursor.{remaining, HiveGlobCursor, Serde, IsLossless}
use vgi_reghive.Table.ReadHive.Ends.{next_batch-finished}
use vgi_reghive.Table.ReadHive.{Producer, glob, finished, next_batch, restore_resume}
use vgi_reghive.Table.ReadHive.{encode_resume}
use vgi_reghive.Base.{map, ℕ, zero, suc, ◌≡◌, refl, sym, ap, ◌∙◌, ◌≢◌, Bool, true, false, Option}
use vgi_reghive.Base.{none, some, List, [], ◌∷◌, ◌++◌, arith, Bytes, Text, codes}
use vgi_reghive.Examples.Samples.{sample_notatin, sample_files, sample_producer, hive_file}
use vgi_reghive.Examples.Samples.{text_file, sample_paths}
use vgi_reghive.Table.Files.{expand_glob, expand_glob-files, IsSorted, keep, flatten, is_pattern}
use vgi_reghive.Table.ReadHive.Calls.{live_results, with_files}
use vgi_reghive.Table.ReadHive.Scan.{scan, AreBatches, rows_by_file, scan-files}
use vgi_reghive.Examples.Columns.{sample_arrow, sample_arrow-Documented}
use vgi_reghive.Table.ReadHive.Resume.{calls, scan_resumed, restore_resume_corrupt}
use mathlib.Core.Option.{some-injective}
use mathlib.Core.List.{Permᴰ}

expand_glob-files_example :
    IsSorted (expand_glob sample_files (codes "/h/*"))
    × Permᴰ
        (map sample_files.to_string_lossy (keep sample_files.is_file (flatten sample_paths)))
        (expand_glob sample_files (codes "/h/*"))
unfolding is_pattern
expand_glob-files_example = expand_glob-files sample_files (codes "/h/*") sample_paths refl refl

abbrev two_files : List Text
two_files = text_file ∷ hive_file ∷ []

scan-files_example :
    AreBatches sample_arrow sample_notatin sample_files
      (rows_by_file sample_arrow sample_notatin sample_files sample_producer two_files)
      (scan sample_arrow sample_notatin sample_files 3
        (with_files sample_arrow sample_notatin sample_files sample_producer two_files))
scan-files_example =
    scan-files sample_arrow sample_notatin sample_files sample_producer two_files
      sample_arrow-Documented refl

-- A text is its characters, each one higher, and a zero; a list of texts has a one in front of each,
-- and a zero at the end.
abbrev put_text : Text → Bytes → Bytes
put_text [] rest = 0 ∷ rest
put_text (c ∷ s) rest = suc c ∷ put_text s rest

abbrev put_texts : List Text → Bytes
put_texts [] = 0 ∷ []
put_texts (t ∷ ts) = 1 ∷ put_text t (put_texts ts)

abbrev in_first : ℕ → List Text → List Text
in_first c [] = []
in_first c (t ∷ ts) = (c ∷ t) ∷ ts

abbrev get_texts : Bool → Bytes → List Text
get_texts inside [] = []
get_texts false (zero ∷ b) = []
get_texts false (suc n ∷ b) = get_texts true b
get_texts true (zero ∷ b) = [] ∷ get_texts false b
get_texts true (suc c ∷ b) = in_first c (get_texts true b)

get_put_text : (t : Text) (b : Bytes) → get_texts true (put_text t b) ≡ t ∷ get_texts false b
get_put_text [] b = refl
get_put_text (c ∷ t) b = ap (in_first c) (get_put_text t b)

get_put_texts : (ts : List Text) → get_texts false (put_texts ts) ≡ ts
get_put_texts [] = refl
get_put_texts (t ∷ ts) = get_put_text t (put_texts ts) ∙ ap (◌∷◌ t) (get_put_texts ts)

abbrev put_fields : ℕ → Option Text → List Text → Bytes
put_fields n none files = n ∷ 0 ∷ put_texts files
put_fields n (some f) files = n ∷ 1 ∷ put_texts (f ∷ files)

abbrev put_cursor : HiveGlobCursor → Bytes
put_cursor c = put_fields c.emitted_in_current c.current_file c.pending_files

abbrev cursor_of : ℕ → List Text → Option HiveGlobCursor
cursor_of n [] = none
cursor_of n (f ∷ files) =
    some (record { pending_files = files; current_file = some f; emitted_in_current = n })

abbrev get_cursor : Bytes → Option HiveGlobCursor
get_cursor [] = none
get_cursor (n ∷ []) = none
get_cursor (n ∷ zero ∷ b) =
    some (record { pending_files = get_texts false b; current_file = none; emitted_in_current = n })
get_cursor (n ∷ suc k ∷ b) = cursor_of n (get_texts false b)

abbrev sample_serde : Serde
sample_serde = record { to_vec = λ c. some (put_cursor c); from_slice = get_cursor }

get_put_fields :
    (n : ℕ) (o : Option Text) (files : List Text)
    → get_cursor (put_fields n o files)
      ≡ some (record { pending_files = files; current_file = o; emitted_in_current = n })
get_put_fields n none files = rw (get_put_texts files)
get_put_fields n (some f) files = ap (cursor_of n) (get_put_texts (f ∷ files))

put_fields_not_empty : (n : ℕ) (o : Option Text) (files : List Text) → put_fields n o files ≢ []
put_fields_not_empty n none files = λ e. absurd (ground arith)
put_fields_not_empty n (some f) files = λ e. absurd (ground arith)

sample_serde-IsLossless : IsLossless sample_serde
sample_serde-IsLossless = record {
  writes = λ c e. absurd (ground arith);
  not_empty = λ c e.
      put_fields_not_empty c.emitted_in_current c.current_file c.pending_files
        (some-injective _ _ e);
  reads = λ c b e.
      ap get_cursor (sym (some-injective _ _ e))
      ∙ get_put_fields c.emitted_in_current c.current_file c.pending_files;
}

restore_resume_corrupt_example :
    (next_batch sample_arrow sample_notatin sample_files (
      restore_resume sample_serde
        (with_files sample_arrow sample_notatin sample_files sample_producer (hive_file ∷ []))
        (b'?' ∷ []))).0
    ≡ finished
restore_resume_corrupt_example =
    restore_resume_corrupt sample_arrow sample_notatin sample_files sample_serde sample_producer
      (hive_file ∷ []) b'?' [] refl

scan_resumed_example :
    scan sample_arrow sample_notatin sample_files 1 (
        with_files sample_arrow sample_notatin sample_files sample_producer
          (hive_file ∷ hive_file ∷ []))
      ++ scan sample_arrow sample_notatin sample_files 3 (
          restore_resume sample_serde
            (with_files sample_arrow sample_notatin sample_files sample_producer
              (hive_file ∷ hive_file ∷ []))
            (encode_resume sample_serde (
              calls sample_arrow sample_notatin sample_files 1 (
                with_files sample_arrow sample_notatin sample_files sample_producer
                  (hive_file ∷ hive_file ∷ [])))))
    ≡ live_results sample_arrow sample_notatin sample_files sample_producer
        (hive_file ∷ hive_file ∷ [])
scan_resumed_example =
    scan_resumed sample_arrow sample_notatin sample_files sample_serde sample_serde-IsLossless 1
      sample_producer (hive_file ∷ hive_file ∷ [])

-- A producer that has given some rows of its first file.
abbrev half_way : Producer
half_way = record sample_producer {
  plan = glob (record {
    pending_files = text_file ∷ [];
    current_file = some hive_file;
    emitted_in_current = 7;
  });
}

next_batch-finished_example :
    (next_batch sample_arrow sample_notatin sample_files
      (calls sample_arrow sample_notatin sample_files 2 half_way)).0
    ≡ finished
unfolding remaining
next_batch-finished_example =
    next_batch-finished sample_arrow sample_notatin sample_files half_way 2 (omega arith)
