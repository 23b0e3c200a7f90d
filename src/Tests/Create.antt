-- ===== src/Tests/Create.antt =====
-- A transaction whose first write fails when it begins.
use mini_code_agent_langgrap.Prelude.{
  ◌≡◌, refl, true, false, none, some, String, ok, err, Exception,
}
use mini_code_agent_langgrap.Workspace.{fingerprint}
use mini_code_agent_langgrap.Transaction.Store.{
  World, Env, read_clock, write_file, replace_directory,
}
use mini_code_agent_langgrap.Transaction.Create.{
  Begin, create, admit_source, make_directory, add_worktree, check_source, write_transaction,
  write_or_discard, remove_tree, after_discard, discard, discard_unless,
}
use mini_code_agent_langgrap.Transaction.Create.Rollback.{Gone, create-rollback}
use mini_code_agent_langgrap.Tests.Transaction.{env}

abbrev disk_full : Exception
disk_full = record { name = "OSError"; text = "No space left on device" }

abbrev full_env : Env String
full_env = record env { write_error = λ n. some disk_full }

abbrev begin : Begin String
begin = record {
  source_path = "/src";
  is_dir = true;
  root_inside_source = false;
  private_directory = ok tt;
  is_top_level = ok true;
  is_clean = λ tree. ok true;
  project_identity = ok "identity";
  fresh_id = "0123456789abcdef01234567";
  make_directory = ok tt;
  worktree_add = λ commit tree. (ok tree, tree);
  trajectory_path = "/state/trajectory.json";
  worktree_discard = λ tree. (ok true, tree);
  rmtree = λ d. none;
}

abbrev empty_world : World String
empty_world = record {
  source = "old";
  directories = λ j. none;
  key_file = none;
  clock_reads = 0;
  writes = 0;
}

create-raises : (create begin full_env "task" "off" empty_world).0 ≡ err disk_full
unfolding create admit_source make_directory add_worktree check_source write_transaction
    write_or_discard remove_tree after_discard discard discard_unless read_clock write_file
    replace_directory fingerprint
create-raises = refl

create-rollback_example : Gone begin disk_full (create begin full_env "task" "off" empty_world).1
create-rollback_example =
    create-rollback begin full_env "task" "off" empty_world disk_full refl create-raises
