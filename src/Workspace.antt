-- ===== src/Workspace.antt =====
-- `WorkspaceSnapshot` of src/mini_code_agent/workspace.py: the files of a workspace with their
-- digests, the snapshot's fingerprint, and the difference of two snapshots. A snapshot's files are a
-- dict, an association list in which the first entry of a path counts. What scans the file system
-- to fill it is not modelled: a capture is a parameter of the code that takes one.
use Prim.Native.Nat.{Ordering}
use Prim.Native.String.{compare}
use mini_code_agent_langgrap.Prelude.{
  Bool, true, false, not, List, [], ◌∷◌, Option, none, some, String, ◌==◌, contains, if◌then◌else◌,
}
use mini_code_agent_langgrap.Prelude.Json.{Fields, str, obj, end, field}
use mini_code_agent_langgrap.Prelude.Library.{Library}

abbrev pub Files : Type 0
Files = List (String × String)

abbrev pub lookup : String → Files → Option String
lookup path [] = none
lookup path ((p, digest) ∷ rest) = if p == path then some digest else lookup path rest

-- `files.pop(path, None)`
unfoldable pub pop : String → Files → Files
pop path [] = []
pop path ((p, digest) ∷ rest) =
    let rest' = pop path rest in if p == path then rest' else (p, digest) ∷ rest'

-- `files[path] = digest`
unfoldable pub put : String → String → Files → Files
put path digest files = (path, digest) ∷ files

abbrev pub paths : Files → List String
paths [] = []
paths ((p, _) ∷ rest) = p ∷ paths rest

abbrev files_json : Files → Fields
files_json [] = end
files_json ((path, digest) ∷ rest) = field path (str digest) (files_json rest)

unfoldable pub fingerprint : Library → Files → String
fingerprint lib files = lib.sha256_hex (lib.canonical_json (obj (files_json files)))

abbrev precedes : String → String → Bool
precedes a b = elim (compare a b) [ Ordering.gt ↦ false | _ ↦ true ]

insert_sorted : String → List String → List String
insert_sorted a [] = a ∷ []
insert_sorted a (x ∷ xs) =
    let rest = insert_sorted a xs in if precedes a x then a ∷ x ∷ xs else x ∷ rest

-- `sorted(set(texts))`
unfoldable pub sorted_set : List String → List String
unfolding insert_sorted
sorted_set [] = []
sorted_set (a ∷ rest) =
    let more = sorted_set rest in if contains a more then more else insert_sorted a more

abbrev has : String → Files → Bool
has path files = elim (lookup path files) [ none ↦ false | some _ ↦ true ]

-- The paths of the first files that the second lack.
unfoldable pub missing_paths : List String → Files → List String
missing_paths [] files = []
missing_paths (p ∷ rest) files =
    let more = missing_paths rest files in if has p files then more else p ∷ more

abbrev differs : Option String → Option String → Bool
differs (some a) (some b) = not (a == b)
differs _ _ = false

unfoldable pub modified_paths : List String → Files → Files → List String
modified_paths [] before after = []
modified_paths (p ∷ rest) before after =
    let more = modified_paths rest before after in
    if differs (lookup p before) (lookup p after) then p ∷ more else more

pub record Changes : Type 0 where
  pub created : List String
  pub deleted : List String
  pub modified : List String

unfoldable pub diff : Files → Files → Changes
unfolding sorted_set missing_paths modified_paths
diff before after = record {
  created = sorted_set (missing_paths (paths after) before);
  deleted = sorted_set (missing_paths (paths before) after);
  modified = sorted_set (modified_paths (paths before) before after);
}
