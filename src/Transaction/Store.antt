-- ===== src/Transaction/Store.antt =====
-- The durable state of the transaction store of src/mini_code_agent/transaction.py, its loads and
-- saves. `Tree` is the state of a Git worktree. Git, the scan of a workspace, the clock and the disk
-- are the parameter `Env`: the n-th write of a file succeeds or fails as `write_error` says, and a
-- write that fails leaves the old file, as `atomic_write_text` does. A file that cannot be read is
-- `none`. The lock of `locked` is held: no other process changes the directory meanwhile.
use Prim.Native.Char.{code}
use Prim.Native.String.{count}
use mini_code_agent_langgrap.Prelude.{
  ℕ, suc, Bool, true, false, not, ◌&&◌, ◌||◌, List, [], ◌∷◌, Option, none, some, String, Result, ok,
  err, Exception, ◌==◌, eqb, leb, concat, if◌then◌else◌,
}
use mini_code_agent_langgrap.Prelude.Json.{Json, Fields}
use mini_code_agent_langgrap.Prelude.Library.{Library}
use mini_code_agent_langgrap.Manifest.{Manifest}
use mini_code_agent_langgrap.Workspace.{Files}

pub record Baseline : Type 0 where
  pub source_files : Files
  pub workspace_files : Files

pub record Directory (Tree : Type 0) : Type 0 where
  pub manifest : Option Manifest
  pub baseline : Option Baseline
  pub patch : Option String
  pub trajectory : Option Fields
  pub receipt : Option Json
  pub workspace : Option Tree

pub record World (Tree : Type 0) : Type 0 where
  pub source : Tree
  pub directories : String → Option (Directory Tree)
  pub key_file : Option String
  pub clock_reads : ℕ
  pub writes : ℕ

-- Git commands return what the code reads of their output; `apply_check` is the error's text.
pub record Env (Tree : Type 0) : Type 0 where
  pub library : Library
  pub fresh_key : String
  pub time_ns : ℕ → ℕ
  pub write_error : ℕ → Option Exception
  pub head : Tree → Result String
  pub capture : Tree → Result Files
  pub capture_content : Tree → Result Files
  pub untracked : Tree → Result (List String)
  pub add_intent : List String → Tree → Result (Unit {0}) × Tree
  pub diff_names : Tree → Result (List String)
  pub diff : Tree → Result String
  pub apply_check : String → Tree → Option String
  pub apply : String → Tree → Result (Unit {0}) × Tree
  pub worktree_remove : Tree → Result (Unit {0}) × Tree

-- A method: its result or exception, and the world that it leaves in both cases.
abbrev pub Action : Type 0 → Type 0 → Type 0
Action Tree A = World Tree → Result A × World Tree

module _ {Tree A : Type 0} where
  abbrev pub pure : A → Action Tree A
  pure a w = (ok a, w)

  abbrev pub lift : Result A → Action Tree A
  lift r w = (r, w)

  abbrev pub raise : String → String → Action Tree A
  raise name text w = (err (record { name = name; text = text }), w)

module _ {Tree A B : Type 0} where
  abbrev pub continue : (A → Action Tree B) → Result A × World Tree → Result B × World Tree
  continue f (ok a, w) = f a w
  continue f (err e, w) = (err e, w)

  infixl 10 ◌>>=◌ ◌>>◌
  abbrev pub ◌>>=◌ : Action Tree A → (A → Action Tree B) → Action Tree B
  ◌>>=◌ m f w = continue f (m w)

  abbrev pub ◌>>◌ : Action Tree A → Action Tree B → Action Tree B
  m >> k = m >>= λ _. k

abbrev pub raise_if : {Tree : Type 0} → Bool → String → Action Tree (Unit {0})
raise_if true text = raise "TransactionError" text
raise_if false text = pure tt

abbrev pub transaction_version : ℕ
transaction_version = 1

abbrev pub max_state_file_bytes : ℕ
max_state_file_bytes = 268435456

is_hex : ℕ → Bool
is_hex c = (leb b'0' c && leb c b'9') || (leb b'a' c && leb c b'f')

all_hex : String → Bool
unfolding is_hex
all_hex String.[] = true
all_hex (String.◌∷◌ c s) = is_hex (code c) && all_hex s

-- `TRANSACTION_ID.fullmatch(transaction_id)`
unfoldable pub is_transaction_id : String → Bool
unfolding all_hex
is_transaction_id id = eqb (count id) 24 && all_hex id

-- `data.setdefault(...)` of `load`
abbrev pub fill_defaults : Library → Manifest → Manifest
fill_defaults lib m = record m {
  memory_mode = elim m.memory_mode [ none ↦ some "off" | some mode ↦ some mode ];
  workspace_identity_sha256 = elim m.workspace_identity_sha256 [
    | none ↦ some (lib.sha256_hex (lib.resolve m.source))
    | some i ↦ some i
  ];
}

module _ {Tree : Type 0} where
  -- `_directory`
  unfoldable pub directory : String → Action Tree (Directory Tree)
  directory id w =
      if not (is_transaction_id id)
      then raise "TransactionError" "transaction id must be 24 lowercase hex characters" w
      else elim (w.directories id) [
        | none ↦ raise "FileNotFoundError" (concat ("transaction does not exist: " ∷ id ∷ [])) w
        | some d ↦ (ok d, w)
      ]

  unfoldable pub replace_directory : String → Option (Directory Tree) → World Tree → World Tree
  replace_directory id d w = record w { directories = λ j. if id == j then d else w.directories j }

  -- A file that is read whole, or the exception that a failed open raises.
  unfoldable pub read_file : {A : Type 0} → String → Option A → Action Tree A
  read_file label none = raise "TransactionError" (concat ("could not open " ∷ label ∷ []))
  read_file label (some content) = pure content

  unfoldable pub read_clock : Env Tree → Action Tree ℕ
  read_clock env w = (ok (env.time_ns w.clock_reads), record w { clock_reads = suc w.clock_reads })

  abbrev pub update_directory : String → (Directory Tree → Directory Tree) → World Tree → World Tree
  update_directory id change w = elim (w.directories id) [
    | none ↦ w
    | some d ↦ replace_directory id (some (change d)) w
  ]

  -- One atomic write of a file of the directory.
  unfoldable pub write_file :
      Env Tree → String → (Directory Tree → Directory Tree) → Action Tree (Unit {0})
  write_file env id change w =
      let w' : World Tree = record w { writes = suc w.writes } in
      elim (env.write_error w.writes) [
        | some e ↦ (err e, w')
        | none ↦ (ok tt, update_directory id change w')
      ]

  unfoldable pub load : Env Tree → String → Action Tree Manifest
  load env id = do
    d ← directory id
    m ← read_file "transaction manifest" d.manifest
    raise_if (not (eqb m.version transaction_version && m.id == id))
        "transaction manifest identity is invalid"
    pure (fill_defaults env.library m)

  -- `save` sets `updated_at_ns` in the manifest that its caller goes on with.
  unfoldable pub save : Env Tree → Manifest → Action Tree Manifest
  save env m = do
    directory m.id
    now ← read_clock env
    let m' : Manifest = record m { updated_at_ns = now }
    write_file env m.id (λ d. record d { manifest = some m' })
    pure m'

  unfoldable pub workspace_of : String → Action Tree Tree
  workspace_of id = do
    d ← directory id
    elim d.workspace [
      | none ↦ raise "TransactionError" "transaction workspace is missing or invalid"
      | some tree ↦ pure tree
    ]

  -- `_remove_workspace`
  unfoldable pub remove_workspace : Env Tree → String → Action Tree (Unit {0})
  remove_workspace env id w =
      let found = directory id w in
      continue
        (λ (d : Directory Tree) (v : World Tree). elim d.workspace [
          | none ↦ (ok tt, v)
          | some _ ↦
              let (r, source) = env.worktree_remove v.source in
              let v' : World Tree = record v { source = source } in
              elim r [
                | ok _ ↦ (ok tt, update_directory id (λ d. record d { workspace = none }) v')
                | err e ↦ (err e, v')
              ]
        ])
        found
