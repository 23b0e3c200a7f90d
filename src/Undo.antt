-- ===== src/Undo.antt =====
-- The undo of a run's edits, of src/mini_code_agent/trajectory.py: the checks of the records, the
-- authenticated journal, and the undo itself. A workspace is the contents of its files; `Site` is what
-- the code asks of paths and of the disk. Journals of old versions, which are not signed, are not
-- modelled.
pub mod DryRun
pub mod Restores
pub mod Guards
pub mod Journal
use Prim.Native.Char.{code}
use Prim.Native.String
use Prim.Native.String.{count}
use mini_code_agent_langgrap.Prelude.{
  ℕ, ◌+◌, Bool, true, false, not, ◌&&◌, ◌||◌, List, [], ◌∷◌, ◌++◌, Option, none, some, String,
  Result, ok, err, Exception, ◌==◌, eqb, ltb, leb, is_empty, concat, length, if◌then◌else◌,
}
use mini_code_agent_langgrap.Prelude.Library.{Library}

-- An undo record, as `_validate_records` normalises it.
pub record UndoRecord : Type 0 where
  pub path : String
  pub path_binding : String
  pub existed_before : Bool
  pub before_content : String
  pub before_hash : String
  pub after_hash : String

-- The contents of the files of a workspace.
abbrev pub Contents : Type 0
Contents = String → Option String

-- `resolve` is `SafeWorkspace.resolve`, relative to the root; `absolute` and `base_name` are
-- `Path.resolve` and `Path.name`; `write_error` is what a write or an unlink of a path raises.
pub record Site : Type 0 where
  pub root : String
  pub resolve : String → Result String
  pub absolute : String → String
  pub base_name : String → String
  pub write_error : String → Option Exception

unfoldable pub set_content : String → Option String → Contents → Contents
set_content path content w q = if path == q then content else w q

-- `_path_hash`
unfoldable pub path_hash : Library → Contents → String → Option String
path_hash lib w path = elim (w path) [ none ↦ none | some text ↦ some (lib.sha256_hex text) ]

-- A write of the workspace: what it raises, or the files afterwards.
unfoldable pub write_path : Site → String → Option String → Contents → Result (Unit {0}) × Contents
write_path site path content w = elim (site.write_error path) [
  | some e ↦ (err e, w)
  | none ↦ (ok tt, set_content path content w)
]

-- The hashes that the loop has set, by path.
abbrev pub Hashes : Type 0
Hashes = String → Option (Option String)

unfoldable pub set_hash : String → Option String → Hashes → Hashes
set_hash path hash hashes q = if path == q then some hash else hashes q

abbrev pub no_hashes : Hashes
no_hashes q = none

-- `simulated_hashes.get(path, _path_hash(path, workspace))`
unfoldable pub current_hash : Library → Hashes → Contents → String → Option String
current_hash lib hashes w path = elim (hashes path) [
  | some hash ↦ hash
  | none ↦ path_hash lib w path
]

-- `record.get("after_hash") or None`
unfoldable pub expected_hash : UndoRecord → Option String
expected_hash r = if is_empty r.after_hash then none else some r.after_hash

abbrev pub same_hash : Option String → Option String → Bool
same_hash none none = true
same_hash (some a) (some b) = a == b
same_hash _ _ = false

-- What the record restores: the old content, or no file.
unfoldable pub restored : UndoRecord → Option String
restored r = if r.existed_before then some r.before_content else none

abbrev pub hash_of : Library → Option String → Option String
hash_of lib none = none
hash_of lib (some text) = some (lib.sha256_hex text)

unfoldable pub action_text : UndoRecord → String → String
action_text r path = concat ((if r.existed_before then "restored " else "removed ") ∷ path ∷ [])

-- A file that is not there is not unlinked.
abbrev pub is_write : Option String → Option String → Bool
is_write (some text) content = true
is_write none none = false
is_write none (some old) = true

-- The write of one record, unless it is a dry run.
unfoldable pub restore : Site → Bool → UndoRecord → String → Contents → Result (Unit {0}) × Contents
restore site dry_run r path w =
    if dry_run || not (is_write (restored r) (w path))
    then (ok tt, w)
    else write_path site path (restored r) w

-- An action before those of the rest, or what was raised.
abbrev pub prepend : String → Result (List String) × Contents → Result (List String) × Contents
prepend action (ok actions, w) = (ok (action ∷ actions), w)
prepend action (err e, w) = (err e, w)

-- The rest of the loop, where a write did not raise.
abbrev pub after_write :
    Result (Unit {0}) × Contents
    → (Contents → Result (List String) × Contents)
    → Result (List String) × Contents
after_write (ok _, w) rest = rest w
after_write (err e, w) rest = (err e, w)

abbrev pub after_resolve :
    Result String
    → Contents
    → (String → Result (List String) × Contents)
    → Result (List String) × Contents
after_resolve (ok path) w rest = rest path
after_resolve (err e) w rest = (err e, w)

-- Whether a record is undone: the file is as the agent left it, or the undo is forced.
unfoldable pub is_undone : Library → Bool → UndoRecord → String → Hashes → Contents → Bool
unfolding current_hash expected_hash
is_undone lib force r path hashes w =
    force || same_hash (current_hash lib hashes w path) (expected_hash r)

abbrev pub skip_text : String → String
skip_text path = concat ("skip " ∷ path ∷ ": file changed since agent edit" ∷ [])

-- What is left of the loop, from the hashes and the files that a round leaves.
abbrev pub Rest : Type 0
Rest = Hashes → Contents → Result (List String) × Contents

-- One round of the loop, at the record's path.
unfoldable pub undo_round :
    Library
    → Site
    → Bool
    → Bool
    → UndoRecord
    → Hashes
    → Contents
    → Rest
    → String
    → Result (List String) × Contents
unfolding is_undone restore action_text restored
undo_round lib site dry_run force r hashes w rest path =
    elim (is_undone lib force r path hashes w) [
      | false ↦ prepend (skip_text path) (rest hashes w)
      | true ↦ after_write (restore site dry_run r path w) λ w'.
          prepend (action_text r path) (rest (set_hash path (hash_of lib (restored r)) hashes) w')
    ]

-- The loop of `_undo_records`, over the records from the last to the first.
unfoldable pub undo_loop : Library → Site → Bool → Bool → List UndoRecord → Rest
unfolding undo_round
undo_loop lib site dry_run force [] hashes w = (ok [], w)
undo_loop lib site dry_run force (r ∷ rest) hashes w =
    after_resolve (site.resolve r.path) w
      (undo_round lib site dry_run force r hashes w (undo_loop lib site dry_run force rest))

abbrev pub reversed : List UndoRecord → List UndoRecord
reversed [] = []
reversed (r ∷ rs) = reversed rs ++ (r ∷ [])

-- `_undo_records`
unfoldable pub undo_records :
    Library → Site → Bool → Bool → List UndoRecord → Contents → Result (List String) × Contents
undo_records lib site dry_run force records w =
    undo_loop lib site dry_run force (reversed records) no_hashes w
