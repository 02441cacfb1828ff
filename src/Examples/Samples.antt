-- ===== src/Examples/Samples.antt =====
-- Concrete blobs, a small parser and a small file system.
use vgi_reghive.Base.{Bool, true, false, ◌||◌, Option, none, some, List, [], ◌∷◌, ◌++◌, map, ltb}
use vgi_reghive.Base.{if◌then◌else◌, replicate, Bytes, Text, codes}
use vgi_reghive.Hive.Notatin.{Notatin, CellKey, CellValue, Result}
use vgi_reghive.Table.Files.{FileSystem}
use vgi_reghive.Table.ReadHive.{Producer, glob, on_bind}
use vgi_reghive.Hive.Walk.{all}
use vgi_reghive.Cursor.{new}
use vgi_reghive.BaseBlock.{regf_signature}
use vgi_reghive.LogParse.Stream.{LogEntry}
use vgi_reghive.Base.Int.{pos}
use vgi_reghive.Base.Strings.{text_eq}

-- A base block of zeros behind the signature; its checksum is bad.
abbrev pub blank_base : Bytes
blank_base = regf_signature ++ replicate 4092 0

abbrev pub first_entry : LogEntry
first_entry = record {
  flags = 1;
  sequence = 7;
  bins_size = 4096;
  dirty_pages = 2;
  hashes = replicate 16 0xaa;
  body = replicate 8 1;
}

abbrev pub second_entry : LogEntry
second_entry = record {
  flags = 1;
  sequence = 8;
  bins_size = 4096;
  dirty_pages = 3;
  hashes = replicate 16 0xbb;
  body = [];
}

abbrev pub run_value : CellValue
run_value = record {
  bytes = some (b'a' ∷ 0 ∷ 0 ∷ 0 ∷ []);
  type_raw = 1;
  name = codes "Run";
  deleted = true;
}

abbrev pub run_key : CellKey
run_key = record {
  path = codes "\\ROOT\\Software\\Run";
  deleted = false;
  last_write = pos 5;
  values = run_value ∷ [];
  subkey_count = 0;
  value_count = 1;
  get_value = λ name. if text_eq name (codes "Run") then some run_value else none;
}

abbrev pub other_key : CellKey
other_key = record {
  path = codes "\\ROOT\\System";
  deleted = true;
  last_write = pos 6;
  values = [];
  subkey_count = 1;
  value_count = 0;
  get_value = λ name. none;
}

-- A parser that builds on every blob that is not empty, and finds the two keys in it.
abbrev build_sample : Bytes → Bool → List Bytes → Result Text Bytes
build_sample [] recover logs = Result.err (codes "empty")
build_sample (b ∷ bytes) recover logs = Result.ok (b ∷ bytes)

abbrev pub sample_notatin : Notatin
sample_notatin = record {
  Parser = Bytes;
  build = build_sample;
  root_key_name = λ p. some (codes "ROOT");
  keys = λ p. run_key ∷ other_key ∷ [];
  get_key = λ p path. if text_eq path (codes "\\System") then some other_key else none;
}

-- Two files, of which the second is no hive.
abbrev pub hive_file : Text
hive_file = codes "/h/a.dat"

abbrev pub text_file : Text
text_file = codes "/h/b.txt"

abbrev read_sample : Text → Option Bytes
read_sample f =
    if text_eq f hive_file
    then some blank_base
    else if text_eq f text_file
    then some (codes "hello")
    else none

-- A file with a code unit in its path that is no character.
abbrev pub odd_file : Text
odd_file = codes "/h/" ++ 0xdc80 ∷ []

abbrev pub sample_paths : List (Option Text)
sample_paths = some text_file ∷ some (codes "/h") ∷ none ∷ some odd_file ∷ some hive_file ∷ []

abbrev pub sample_files : FileSystem
sample_files = record {
  PathBuf = Text;
  path_of = λ t. t;
  to_string_lossy = map (λ c. if ltb c 0xd800 then c else 0xfffd);
  is_file = λ f. text_eq f hive_file || text_eq f text_file || text_eq f odd_file;
  read = read_sample;
  glob = λ pattern. some sample_paths;
}

abbrev pub sample_producer : Producer
sample_producer = record {
  schema = on_bind;
  apply_logs = true;
  recover = true;
  mode = all;
  plan = glob (new []);
}
