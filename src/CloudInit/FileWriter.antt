-- ===== src/CloudInit/FileWriter.antt =====
-- Writing a file: agent/cloudinit/file_writer.go. The permission at creation is 0644: `os.Stat`
-- returns no error for which `os.IsExist` holds.
use cluster_api_provider_bri.Prelude.{
  split, ℕ, String, Bool, Option, none, some, List, [], ◌∷◌, ◌++◌, str_eq, if◌then◌else◌,
}
use cluster_api_provider_bri.Api.Meta.{Error, failed, Result, ok, err, is_not_found}

-- `Files`
pub record File : Type 0 where
  pub path : String
  pub encoding : String
  pub owner : String
  pub permissions : String
  pub content : String
  pub append : Bool

pub data FileAction : Type 0 where
  mkdir_all : String → FileAction
  open_file : String → Bool → FileAction
  write_string : String → FileAction
  chmod : ℕ → FileAction
  chown : ℕ → ℕ → FileAction
  close : FileAction

-- The file system's and the user database's replies, and `strconv.ParseUint` of a base and a text.
pub record FileSystem : Type 0 where
  pub stat : String → Option Error
  pub reply : FileAction → Option Error
  pub parse_uint : ℕ → String → Result {0} ℕ
  pub lookup_user : String → Result {0} (String × String)

-- The actions that were tried, and the error.
abbrev pub Tried : Type 0
Tried = List FileAction × Option Error

infixr 5 ◌then◌
abbrev pub ◌then◌ : Tried → Tried → Tried
(actions, none) then (more, e) = (actions ++ more, e)
(actions, some e) then more = (actions, some e)

module _ (fs : FileSystem) where
  abbrev pub try : FileAction → Tried
  try action = (action ∷ [], fs.reply action)

  -- `MkdirIfNotExists`
  unfoldable pub mkdir_if_not_exists : String → Tried
  mkdir_if_not_exists dir = elim (fs.stat dir) [
    | none ↦ ([], none)
    | some e ↦ if is_not_found e then try (mkdir_all dir) else ([], some e)
  ]

  unfoldable pub set_permissions : String → Tried
  set_permissions permissions =
      if str_eq permissions ""
      then ([], none)
      else elim (fs.parse_uint 8 permissions) [ ok mode ↦ try (chmod mode) | err e ↦ ([], some e) ]

  unfoldable pub chown_ids : Result {0} ℕ → Result {0} ℕ → Tried
  chown_ids (err e) gid = ([], some e)
  chown_ids (ok uid) (err e) = ([], some e)
  chown_ids (ok uid) (ok gid) = try (chown uid gid)

  unfoldable pub chown_user : Result {0} (String × String) → Tried
  unfolding chown_ids
  chown_user (err e) = ([], some e)
  chown_user (ok found) = chown_ids (fs.parse_uint 10 found.0) (fs.parse_uint 10 found.1)

  unfoldable pub chown_parts : List String → Tried
  unfolding chown_user
  chown_parts (user ∷ group ∷ []) = chown_user (fs.lookup_user user)
  chown_parts _ = ([], some (failed "invalid owner format"))

  unfoldable pub set_owner : String → Tried
  unfolding chown_parts split
  set_owner owner = if str_eq owner "" then ([], none) else chown_parts (split 58 owner)

  -- `WriteToFile`
  unfoldable pub write_to_file : File → Tried
  unfolding set_permissions set_owner
  write_to_file file =
      try (open_file file.path file.append)
      then (try (write_string file.content)
          then (set_permissions file.permissions then (set_owner file.owner then try close)))
