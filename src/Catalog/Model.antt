-- ===== src/Catalog/Model.antt =====
-- The catalog with its schema and tags, `catalog_metadata` of crates/reghive-worker/src/lib.rs; the
-- version of the package and the embedded demo hive are parameters.
use vgi_reghive.Base.{Option, some, List, [], ◌∷◌, ◌++◌, Bytes, Text, codes}
use vgi_reghive.Catalog.Meta.{example_queries_json, keywords_json, agent_test_tasks_json}
use vgi_reghive.Catalog.Tasks.{agent_tasks}
use vgi_reghive.Catalog.Sample.{compact_blob_sql}
use vgi_reghive.Catalog.ForensicKeys.{CatView, forensic_keys_view}

-- The lists of macros and tables are empty.
pub record CatSchema : Type 0 where
  pub name : Text
  pub path : List Text
  pub comment : Option Text
  pub tags : List (Text × Text)
  pub views : List CatView

pub record CatalogModel : Type 0 where
  pub name : Text
  pub comment : Option Text
  pub tags : List (Text × Text)
  pub source_url : Option Text
  pub implementation_version : Option Text
  pub schemas : List CatSchema

abbrev catalog_doc : Text
catalog_doc =
    (codes "# Reghive — Windows Registry Hive Parsing for DFIR in SQL\n\n**Parse "
      ++ codes "Windows Registry hive files (the on-disk `regf` format) directly in "
      ++ codes "DuckDB SQL** — `SYSTEM`, `SOFTWARE`, `NTUSER.DAT`, `SAM`, `SECURITY`, "
      ++ codes "`UsrClass.dat`, and `AmCache.hve` — into typed key/value rows for digital "
      ++ codes "forensics and incident response. ATTACH a directory of thousands of "
      ++ codes "collected hives and run **one query** that joins registry evidence "
      ++ codes "(Run-key persistence, Services, installed software, AmCache "
      ++ codes "program-execution) to the rest of your detection surface — IOC feeds, CVE "
      ++ codes "data, YARA, Sigma — with no per-host RegRipper invocation and no "
      ++ codes "result-wrangling.\n\nThe differentiators over export-only tools are "
      ++ codes "**transaction-log (`.LOG1`/`.LOG2`) replay** of dirty hives captured "
      ++ codes "mid-write and **deleted-cell recovery** of keys/values from unallocated "
      ++ codes "space (flagged `is_deleted`), both powered by the Apache-2.0 "
      ++ codes "[`notatin`](https://github.com/strozfriedberg/notatin) parser. Every "
      ++ codes "value is surfaced both as a coerced `value_data` string and the lossless "
      ++ codes "`value_raw` bytes; per-key last-write timestamps are a first-class "
      ++ codes "column.\n\n**Sensitivity note.** `SAM`/`SECURITY` hives contain "
      ++ codes "password-hash material. This worker exposes hive structure faithfully (so "
      ++ codes "those bytes appear in `value_raw`) but **never decodes credentials** — "
      ++ codes "pair it with `vgi-mask`/`vgi-pii` to redact before results leave the "
      ++ codes "analyst's session.\n\n**How you work with it.** Point it at a directory "
      ++ codes "glob of collected hives for bulk triage, or hand it a single in-memory "
      ++ codes "hive to drill into one subtree, key, or value; header and validity probes "
      ++ codes "tell you up front whether a hive is dirty and needs transaction-log "
      ++ codes "recovery. The worker opens no socket and makes no outbound calls — zero "
      ++ codes "egress, safe for air-gapped evidence stores.\n\nFormat references: the "
      ++ codes "[msuhanov regf "
      ++ codes "specification](https://github.com/msuhanov/regf/blob/master/"
      ++ codes "Windows%20registry%20file%20format%20specification.md) and Google Project "
      ++ codes "Zero's \"Windows Registry Adventure #5: regf\".")

abbrev catalog_tags : List (Text × Text)
catalog_tags =
    ((codes "vgi.title"), (codes "Windows Registry Hive Parsing (regf) for DFIR"))
    ∷ (
      (codes "vgi.keywords"),
      keywords_json (
          codes "registry, regf, windows registry, hive, NTUSER, SOFTWARE, SYSTEM, SAM, "
          ++ codes "SECURITY, AmCache, UsrClass, DFIR, forensics, incident response, "
          ++ codes "persistence, run keys, services, deleted recovery, transaction log, LOG1, "
          ++ codes "LOG2, threat hunt"),
    )
    ∷ (
      (codes "vgi.doc_llm"),
      (codes "Parse offline Windows Registry hive files (the regf format used by "
          ++ codes "SYSTEM, SOFTWARE, NTUSER.DAT, SAM, SECURITY, UsrClass.dat, AmCache.hve) "
          ++ codes "into typed key/value rows for digital forensics. Read a directory of "
          ++ codes "collected hives with read_hive(glob) or a single hive `BLOB`; pull a "
          ++ codes "subtree with hive_subtree, a key with hive_key, or a value with "
          ++ codes "hive_value; probe the header with hive_info / well_formed; and inspect "
          ++ codes "transaction-log replay with logs_applied. Supports .LOG1/.LOG2 "
          ++ codes "transaction-log replay of dirty hives and deleted-cell recovery from "
          ++ codes "unallocated space. Use for fleet-scale registry triage joined to "
          ++ codes "IOC/CVE/YARA feeds."),
    )
    ∷ ((codes "vgi.doc_md"), catalog_doc)
    ∷ ((codes "vgi.agent_test_tasks"), agent_test_tasks_json agent_tasks)
    ∷ ((codes "vgi.author"), (codes "Query.Farm"))
    ∷ ((codes "vgi.copyright"), (codes "Copyright 2026 Query Farm LLC - https://query.farm"))
    ∷ ((codes "vgi.license"), (codes "MIT"))
    ∷ ((codes "vgi.support_contact"), (codes "https://github.com/Query-farm/vgi-reghive/issues"))
    ∷ (
      (codes "vgi.support_policy_url"),
      (codes "https://github.com/Query-farm/vgi-reghive/blob/main/README.md"),
    )
    ∷ []

-- The categories that functions may name.
abbrev pub categories : Text
categories =
    (codes "[{\"name\":\"Bulk parsing\",\"description\":\"Scan whole hives — a "
      ++ codes "directory glob or a single blob — into typed key/value rows for "
      ++ codes "triage.\"},{\"name\":\"Targeted lookup\",\"description\":\"Pull one key "
      ++ codes "or value (or a key's metadata) from a hive without scanning the whole "
      ++ codes "tree.\"},{\"name\":\"Header & validation\",\"description\":\"Read a "
      ++ codes "hive's base-block header and confirm the bytes are a well-formed regf "
      ++ codes "hive.\"},{\"name\":\"Transaction logs\",\"description\":\"Report on "
      ++ codes ".LOG1/.LOG2 transaction-log replay of a dirty "
      ++ codes "hive.\"},{\"name\":\"Reference\",\"description\":\"Curated browsable "
      ++ codes "reference data, such as the well-known forensic registry keys to "
      ++ codes "triage.\"}]")

abbrev schema_doc : Text
schema_doc =
    (codes "## Registry-hive parsing for DFIR\n\nThe single schema of the `reghive` "
      ++ codes "worker. It turns offline Windows Registry hive files (`NTUSER.DAT`, "
      ++ codes "`SYSTEM`, `SOFTWARE`, `SAM`, …) into typed key/value rows so a hive on "
      ++ codes "disk can be queried as SQL.\n\nEvery read is offline and best-effort: "
      ++ codes "dirty hives still parse, deleted cells can be recovered and labelled, and "
      ++ codes "sensitive bytes are preserved raw and never decoded. The functions group "
      ++ codes "into a few kinds of work:\n\n- **Bulk parsing** — scan a whole hive (a "
      ++ codes "directory glob, or a single blob) into rows for triage.\n- **Targeted "
      ++ codes "lookup** — pull one key or value, or a key's metadata, without walking "
      ++ codes "the whole tree.\n- **Header & validation** — read the base-block header "
      ++ codes "and confirm the bytes are a well-formed regf hive.\n- **Transaction "
      ++ codes "logs** — report on `.LOG1`/`.LOG2` replay of a dirty hive.\n\nUse it "
      ++ codes "whenever you have a registry hive on disk and need its contents as rows, "
      ++ codes "from fleet-wide triage down to a single key or value.")

abbrev read_hive_ex : Bytes → Text
read_hive_ex demo_hive =
    ((codes "SELECT key_path, value_name, value_data FROM reghive.main.read_hive(")
      ++ (compact_blob_sql demo_hive ++ (codes ") WHERE value_name = 'Updater'")))

abbrev forensic_ex : Text
forensic_ex =
    (codes "SELECT key_path, mitre_technique FROM reghive.main.forensic_keys WHERE "
      ++ codes "category = 'Persistence' ORDER BY key_path")

abbrev schema_example_queries : Bytes → Text
schema_example_queries demo_hive = example_queries_json (
    (
      (codes "Scan a collected hive and pull the Run-key persistence value it plants."),
      read_hive_ex demo_hive,
    )
    ∷ (
      (codes "Browse the well-known persistence keys to triage first, with their ATT&CK "
          ++ codes "technique."),
      forensic_ex,
    )
    ∷ [])

abbrev schema_tags : Bytes → List (Text × Text)
schema_tags demo_hive =
    ((codes "vgi.title"), (codes "Reghive — main"))
    ∷ ((codes "vgi.categories"), categories)
    ∷ (
      (codes "vgi.keywords"),
      keywords_json (
          codes "registry, regf, hive, read_hive, hive_subtree, hive_key, hive_value, "
          ++ codes "key_info, hive_info, well_formed, logs_applied, DFIR, forensics"),
    )
    ∷ ((codes "domain"), (codes "security-and-forensics"))
    ∷ ((codes "category"), (codes "windows-registry"))
    ∷ ((codes "topic"), (codes "dfir-triage"))
    ∷ (
      (codes "vgi.doc_llm"),
      (codes "Registry-hive parsing functions for DFIR: scan hives into key/value rows "
          ++ codes "(read_hive / hive_subtree), pull a single key/value (hive_key / "
          ++ codes "hive_value), probe metadata and validity (key_info / hive_info / "
          ++ codes "well_formed), and inspect transaction-log replay (logs_applied)."),
    )
    ∷ ((codes "vgi.doc_md"), schema_doc)
    ∷ (codes "vgi.example_queries", schema_example_queries demo_hive)
    ∷ []

abbrev main_schema : Bytes → CatSchema
main_schema demo_hive = record {
  name = (codes "main");
  path = [];
  comment = some (
      codes "Registry-hive parsing functions for DFIR triage: bulk directory scans, "
      ++ codes "scoped subtree and single key/value lookups, header and validity probes, "
      ++ codes "and transaction-log replay reporting.");
  tags = schema_tags demo_hive;
  views = forensic_keys_view ∷ [];
}

unfoldable pub catalog_metadata : Text → Bytes → Text → CatalogModel
catalog_metadata version demo_hive name = record {
  name = name;
  comment = some (
      codes "Parse Windows Registry hive files (regf) into typed key/value rows for "
      ++ codes "DFIR — transaction-log replay and deleted-cell recovery.");
  tags = catalog_tags;
  source_url = some (
      codes "https://github.com/msuhanov/regf/blob/master/Windows%20regis"
      ++ codes "try%20file%20format%20specification.md");
  implementation_version = some version;
  schemas = main_schema demo_hive ∷ [];
}
