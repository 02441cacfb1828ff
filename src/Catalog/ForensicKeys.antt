-- ===== src/Catalog/ForensicKeys.antt =====
-- The view of well-known registry keys, `forensic_keys_view` of crates/reghive-worker/src/sample.rs.
use vgi_reghive.Base.{Option, some, List, [], ◌∷◌, ◌++◌, Text, codes}
use vgi_reghive.Catalog.Meta.{object_tags}

pub record CatView : Type 0 where
  pub name : Text
  pub definition : Text
  pub comment : Option Text
  pub tags : List (Text × Text)
  pub column_comments : List (Text × Text)

-- The rows of the definition, in pieces.
abbrev rows_1 : Text
rows_1 =
    (codes "SELECT * FROM (VALUES "
      ++ codes "('Software\\Microsoft\\Windows\\CurrentVersion\\Run','SOFTWARE',"
      ++ codes "'Persistence','Executables launched automatically at user logon; the "
      ++ codes "canonical autostart persistence location.','T1547.001'),")

abbrev rows_2 : Text
rows_2 =
    (codes "('Software\\Microsoft\\Windows\\CurrentVersion\\RunOnce','SOFTWA"
      ++ codes "RE','Persistence','Executables launched once at the next logon and then "
      ++ codes "deleted.','T1547.001'),")

abbrev rows_3 : Text
rows_3 =
    (codes "('ControlSet001\\Services','SYSTEM','Persistence','Windows services and "
      ++ codes "kernel drivers; malicious services and driver loading are configured "
      ++ codes "here.','T1543.003'),")

abbrev rows_4 : Text
rows_4 =
    (codes "('Software\\Microsoft\\Windows "
      ++ codes "NT\\CurrentVersion\\Winlogon','SOFTWARE','Persistence','Shell / Userinit "
      ++ codes "values executed at logon and abused for persistence.','T1547.004'),")

abbrev rows_5 : Text
rows_5 =
    (codes "('Software\\Microsoft\\Windows\\CurrentVersion\\Uninstall','SOFT"
      ++ codes "WARE','Configuration','Inventory of installed applications (DisplayName, "
      ++ codes "InstallDate, publisher).',NULL),")

abbrev rows_6 : Text
rows_6 =
    (codes "('Root\\InventoryApplicationFile','AMCACHE','Execution','AmCache "
      ++ codes "program-execution evidence: first-seen time, full path, and SHA-1 of "
      ++ codes "executed binaries.','T1059'),")

abbrev rows_7 : Text
rows_7 =
    (codes "('Software\\Microsoft\\Windows\\CurrentVersion\\Explorer\\UserAss"
      ++ codes "ist','NTUSER','Execution','ROT13-encoded per-user GUI program-execution "
      ++ codes "counts and last-run times.','T1204'),")

abbrev rows_8 : Text
rows_8 =
    (codes "('ControlSet001\\Control\\Session "
      ++ codes "Manager\\AppCompatCache','SYSTEM','Execution','ShimCache: recently-run "
      ++ codes "executable paths and their timestamps.','T1059') ) AS t(key_path, hive, "
      ++ codes "category, description, mitre_technique)")

abbrev definition_sql : Text
definition_sql =
    rows_1 ++ (rows_2 ++ (rows_3 ++ (rows_4 ++ (rows_5 ++ (rows_6 ++ (rows_7 ++ (rows_8)))))))

abbrev view_tags : List (Text × Text)
view_tags =
    object_tags (codes "Well-Known Forensic Registry Keys")
      (codes "A curated reference of well-known Windows Registry locations that matter "
        ++ codes "in DFIR triage — Run/RunOnce and Winlogon persistence, the Services "
        ++ codes "branch, AmCache and ShimCache and UserAssist execution evidence, and the "
        ++ codes "installed-software inventory. Each row gives the root-stripped key_path "
        ++ codes "(exactly the form read_hive and hive_subtree emit and accept), the hive "
        ++ codes "it lives in, a triage category, a plain-English description, and the "
        ++ codes "MITRE ATT&CK technique it maps to. Browse this first to decide which key "
        ++ codes "paths to pull from a collected hive with hive_subtree or hive_key.")
      (codes "Curated reference of well-known forensic registry keys (persistence, "
        ++ codes "execution, configuration) with their hive, category, description, and "
        ++ codes "MITRE ATT&CK technique. The key_path column is in the same root-stripped "
        ++ codes "form read_hive/hive_subtree use.")
      (codes "forensic keys, well known keys, registry reference, persistence, run key, "
        ++ codes "runonce, winlogon, services, amcache, shimcache, userassist, mitre, "
        ++ codes "att&ck, triage, DFIR")
      (codes "Reference")

unfoldable pub forensic_keys_view : CatView
forensic_keys_view = record {
  name = (codes "forensic_keys");
  definition = definition_sql;
  comment = some (
      codes "Curated reference of well-known Windows Registry forensic locations "
      ++ codes "(persistence, execution, configuration) with their hive, category, "
      ++ codes "description, and MITRE ATT&CK technique; key_path matches the form "
      ++ codes "read_hive/hive_subtree use.");
  tags =
      view_tags
      ++ ((codes "domain"), (codes "security-and-forensics"))
        ∷ ((codes "topic"), (codes "dfir-triage"))
        ∷ (
          (codes "vgi.example_queries"),
          (codes "[\n  {\n    \"description\": \"List the persistence-related registry keys "
              ++ codes "to triage first, with their ATT&CK technique.\",\n    \"sql\": \"SELECT "
              ++ codes "key_path, description, mitre_technique FROM reghive.main.forensic_keys "
              ++ codes "WHERE category = 'Persistence' ORDER BY key_path\"\n  },\n  {\n    "
              ++ codes "\"description\": \"Count the well-known forensic keys grouped by triage "
              ++ codes "category.\",\n    \"sql\": \"SELECT category, count(*) AS n FROM "
              ++ codes "reghive.main.forensic_keys GROUP BY category ORDER BY n DESC, "
              ++ codes "category\"\n  }\n]"),
        )
        ∷ [];
  column_comments =
      (
        (codes "key_path"),
        (codes "Root-stripped registry key path, exactly the form read_hive/hive_subtree "
            ++ codes "emit and accept (backslash-separated, no synthetic HKLM mount)."),
      )
      ∷ (
        (codes "hive"),
        (codes "The hive file this key lives in: SOFTWARE / SYSTEM / NTUSER / SAM / "
            ++ codes "SECURITY / AMCACHE / USRCLASS."),
      )
      ∷ ((codes "category"), (codes "Triage category: Persistence, Execution, or Configuration."))
      ∷ (
        (codes "description"),
        (codes "Why this key matters in a DFIR investigation and what it holds."),
      )
      ∷ (
        (codes "mitre_technique"),
        (codes "MITRE ATT&CK technique id this location maps to (e.g. T1547.001), or NULL "
            ++ codes "when the key is purely informational."),
      )
      ∷ [];
}
