-- ===== src/Tests/Undo.antt =====
-- Two edits of two files and their undo, and a journal of them.
use Prim.Native.String.{count}
use text.Mathlib.TextLemmas.{length-append}
use mini_code_agent_langgrap.Prelude.{
  ◌≡◌, refl, ap, true, false, List, [], ◌∷◌, none, some, String, ok, ◌==◌, is_empty, concat,
  if◌then◌else◌, Bool-cases, inl, inr, eq_iff, arith, ◌+◌,
}
use mini_code_agent_langgrap.Prelude.Json.{obj, Items, Fields}
use mini_code_agent_langgrap.Prelude.Library.{Library}
use mini_code_agent_langgrap.Tests.Transaction.{library}
use mini_code_agent_langgrap.Undo.{
  UndoRecord, Contents, Site, path_hash, restored, set_content, undo_records, undo_loop, undo_round,
  current_hash, expected_hash, same_hash, is_undone, restore, write_path, set_hash, action_text,
}
use mini_code_agent_langgrap.Undo.DryRun.{undo_records-dry}
use mini_code_agent_langgrap.Undo.Guards.{undo_records-Refuses}
use mini_code_agent_langgrap.Undo.Restores.{Records, Edits, unedited, edit, undo_records-Edits}
use mini_code_agent_langgrap.Undo.Journal.{
  re_full_hash, path_binding, validate_record, validate_records, validate_each, record_json,
  records_json, write_undo_journal, journal_name, journal_envelope, journal_payload, open_journal,
}
use mini_code_agent_langgrap.Undo.Journal.RoundTrip.{open_journal-write_undo_journal}

abbrev site : Site
site = record {
  root = "/work";
  resolve = λ p. ok p;
  absolute = λ p. p;
  base_name = λ p. p;
  write_error = λ p. none;
}

abbrev start : Contents
start q = if q == "a.py" then some "old" else none

-- The edit of a file that exists, and the creation of another.
abbrev first_record : UndoRecord
first_record = record {
  path = "a.py";
  path_binding = "";
  existed_before = true;
  before_content = "old";
  before_hash = "sha256:old";
  after_hash = "sha256:new";
}

abbrev second_record : UndoRecord
second_record = record {
  path = "b.py";
  path_binding = "";
  existed_before = false;
  before_content = "";
  before_hash = "";
  after_hash = "sha256:made";
}

abbrev edited_once : Contents
edited_once = set_content "a.py" (some "new") start

abbrev edited : Contents
edited = set_content "b.py" (some "made") edited_once

first-Records : Records library site start "a.py" "new" first_record
first-Records = record { resolved = refl; old = refl; hash = refl }

second-Records : Records library site edited_once "b.py" "made" second_record
unfolding set_content
second-Records = record { resolved = refl; old = refl; hash = refl }

abbrev both : List UndoRecord
both = first_record ∷ second_record ∷ []

both-Edits : Edits library site start both edited
both-Edits =
    edit (first_record ∷ []) edited_once "b.py" "made" second_record
      (edit [] start "a.py" "new" first_record unedited first-Records) second-Records

digest-nonempty : (t : String) → is_empty (library.sha256_hex t) ≡ false
digest-nonempty t = elim (Bool-cases (is_empty (library.sha256_hex t))) [
  | inr e ↦ e
  | inl e ↦
      let same : library.sha256_hex t ≡ "" = (eq_iff (library.sha256_hex t) "").0 e in
      let nothing : count (library.sha256_hex t) ≡ 0 = ap count same in
      let long : count (library.sha256_hex t) ≡ 7 + count (concat (t ∷ [])) =
        length-append "sha256:" (concat (t ∷ [])) in
      ground arith
]

undo_records-Edits_example :
    (actions : List String) × (w' : Contents) × (undo_records library site false false both edited
      ≡ (ok actions, w'))
    × ((q : String) → w' q ≡ start q)
undo_records-Edits_example =
    undo_records-Edits library site start both edited (λ p. refl) digest-nonempty both-Edits

abbrev both_actions : List String
both_actions = "removed b.py" ∷ "restored a.py" ∷ []

undone :
    undo_records library site false false both edited
    ≡ (ok both_actions, (undo_records library site false false both edited).1)
unfolding undo_records undo_loop undo_round current_hash expected_hash is_undone restore write_path
    set_hash action_text restored path_hash set_content
undone = refl

undo_records-dry_example :
    undo_records library site true false both edited ≡ (ok both_actions, edited)
undo_records-dry_example =
    undo_records-dry library site false both edited both_actions
      (undo_records library site false false both edited).1 undone

abbrev file : String
file = "a.py"

-- The file was changed after the edit.
abbrev changed : Contents
changed = set_content "a.py" (some "mine") edited

undo_records-Refuses_example :
    (undo_records library site false false (first_record ∷ []) changed).1 file ≡ changed file
undo_records-Refuses_example =
    undo_records-Refuses library site (first_record ∷ []) changed file (refused, tt)
  where
    refused :
        site.resolve first_record.path ≡ ok "a.py"
        → same_hash (path_hash library changed "a.py") (expected_hash first_record) ≡ false
    refused e = unfold path_hash in unfold set_content in unfold expected_hash in refl

-- The records of a journal, as JSON; the digest of a file has 64 hexadecimal digits.
abbrev full_digest : String
full_digest = "0123456789abcdef0123456789abcdef0123456789abcdef0123456789ABCDEF"

abbrev short_library : Library
short_library = record library { sha256_hex = λ t. full_digest }

abbrev journal_record : UndoRecord
journal_record = record {
  path = "a.py";
  path_binding = full_digest;
  existed_before = true;
  before_content = "old";
  before_hash = full_digest;
  after_hash = full_digest;
}

abbrev records : Items
records = records_json (journal_record ∷ [])

abbrev envelope : Fields
envelope =
    journal_envelope short_library "key"
      (journal_payload site "/runs/1.json" 5 (journal_record ∷ []))

written :
    write_undo_journal short_library site "key" "/runs/1.json" 5 records
    ≡ ok (journal_name short_library "key" "/runs/1.json", envelope)
unfolding write_undo_journal validate_records validate_each validate_record re_full_hash
    path_binding records_json record_json journal_envelope journal_payload
written = refl

open_journal-write_undo_journal_example :
    (rs : List UndoRecord) × (validate_records short_library site records ≡ ok rs)
    × (open_journal short_library site "key" "/runs/1.json" (obj envelope) ≡ ok rs)
open_journal-write_undo_journal_example =
    open_journal-write_undo_journal short_library site (λ p q e. refl) "key" "/runs/1.json" 5
      records (journal_name short_library "key" "/runs/1.json") envelope refl refl written
