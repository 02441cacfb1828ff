-- ===== src/Catalog/Tasks.antt =====
-- The tasks for agents that `catalog_metadata` of crates/reghive-worker/src/lib.rs publishes.
use vgi_reghive.Base.{List, [], ◌∷◌, ◌++◌, codes}
use vgi_reghive.Catalog.Meta.{AgentTask}

abbrev validate_non_hive : AgentTask
validate_non_hive = record {
  name = (codes "validate_non_hive");
  prompt =
      (codes "Is the text 'definitely not a hive' a valid registry hive? Return one "
        ++ codes "boolean column named ok.");
}

abbrev non_hive_header_is_null : AgentTask
non_hive_header_is_null = record {
  name = (codes "non_hive_header_is_null");
  prompt =
      (codes "For the bytes 'not a registry hive', does the base-block header summary "
        ++ codes "come back as NULL (i.e. it is not a parseable hive)? Return one boolean "
        ++ codes "column named is_null.");
}

abbrev well_formed_kind_of_non_hive : AgentTask
well_formed_kind_of_non_hive = record {
  name = (codes "well_formed_kind_of_non_hive");
  prompt =
      (codes "Classify why the bytes 'nope' are not a valid registry hive — return the "
        ++ codes "well-formedness kind label in one column named kind.");
}

abbrev persistence_reference_keys : AgentTask
persistence_reference_keys = record {
  name = (codes "persistence_reference_keys");
  prompt =
      (codes "The worker ships a reference list of well-known forensic registry keys. "
        ++ codes "How many of them are in the 'Persistence' category? Return the count in "
        ++ codes "one column named n.");
}

abbrev reference_key_for_run : AgentTask
reference_key_for_run = record {
  name = (codes "reference_key_for_run");
  prompt =
      (codes "In the worker's reference list of well-known forensic registry keys, "
        ++ codes "which MITRE ATT&CK technique is mapped to the classic CurrentVersion\\Run "
        ++ codes "autostart key? Return one column named mitre_technique.");
}

abbrev read_hive_non_hive_empty : AgentTask
read_hive_non_hive_empty = record {
  name = (codes "read_hive_non_hive_empty");
  prompt =
      (codes "The bulk hive reader must tolerate non-registry input without error. When "
        ++ codes "you read the bytes 'not a hive' as a hive, how many rows come back? "
        ++ codes "Return the count in one column named n.");
}

abbrev hive_subtree_non_hive_empty : AgentTask
hive_subtree_non_hive_empty = record {
  name = (codes "hive_subtree_non_hive_empty");
  prompt =
      (codes "Reading the subtree 'Software' out of the non-registry bytes 'not a hive' "
        ++ codes "must return no rows rather than failing. How many rows come back? Return "
        ++ codes "the count in one column named n.");
}

abbrev hive_key_non_hive_null : AgentTask
hive_key_non_hive_null = record {
  name = (codes "hive_key_non_hive_null");
  prompt =
      (codes "Looking up the key 'Software' in the non-registry bytes 'nope' must yield "
        ++ codes "NULL, not an error. Does it come back NULL? Return one boolean column "
        ++ codes "named is_null.");
}

abbrev hive_value_non_hive_null : AgentTask
hive_value_non_hive_null = record {
  name = (codes "hive_value_non_hive_null");
  prompt =
      (codes "Reading the value 'Updater' under key 'Run' from the non-registry bytes "
        ++ codes "'nope' must yield NULL, not an error. Does it come back NULL? Return one "
        ++ codes "boolean column named is_null.");
}

abbrev key_info_non_hive_null : AgentTask
key_info_non_hive_null = record {
  name = (codes "key_info_non_hive_null");
  prompt =
      (codes "Asking for the metadata of key 'Software' in the non-registry bytes "
        ++ codes "'nope' must yield NULL, not an error. Does it come back NULL? Return one "
        ++ codes "boolean column named is_null.");
}

abbrev logs_applied_non_hive_null : AgentTask
logs_applied_non_hive_null = record {
  name = (codes "logs_applied_non_hive_null");
  prompt =
      (codes "Inspecting a transaction-log replay for the non-registry bytes 'nope' "
        ++ codes "(with no logs supplied) must yield NULL, not an error. Does it come back "
        ++ codes "NULL? Return one boolean column named is_null.");
}

abbrev pub agent_tasks : List AgentTask
agent_tasks =
    validate_non_hive ∷ non_hive_header_is_null ∷ well_formed_kind_of_non_hive
    ∷ persistence_reference_keys ∷ reference_key_for_run ∷ read_hive_non_hive_empty
    ∷ hive_subtree_non_hive_empty ∷ hive_key_non_hive_null ∷ hive_value_non_hive_null
    ∷ key_info_non_hive_null ∷ logs_applied_non_hive_null ∷ []
