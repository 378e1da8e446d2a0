-- ===== src/CloudInit/Script.antt =====
-- Executing a bootstrap script: `ScriptExecutor.Execute` of agent/cloudinit/cloudinit.go. The YAML
-- and template libraries are given as parameters.
pub mod Commands
pub mod Inject
use cluster_api_provider_bri.Prelude.{
  contains, join, ℕ, ◌==◌, String, ◌<>◌, Bool, true, false, not, ◌&&◌, ◌||◌, Option, none, some,
  List, [], ◌∷◌, ◌++◌, map, codes, length, str_eq, if◌then◌else◌, is_some,
}
use cluster_api_provider_bri.Prelude.Dict.{Dict, lookup, insert}
use cluster_api_provider_bri.Api.Meta.{Error, Result, ok, err}
use cluster_api_provider_bri.Api.Host.{Taint}
use cluster_api_provider_bri.Agent.Tls.{generate_provider_id}
use cluster_api_provider_bri.CloudInit.Command.{Shell, Ran, run_cmd}
use cluster_api_provider_bri.CloudInit.Encoding.{Decoders, parse_encoding_scheme, decode_content}
use cluster_api_provider_bri.CloudInit.FileWriter.{
  File, FileAction, FileSystem, Tried, ◌then◌, mkdir_if_not_exists, write_to_file,
}

abbrev has_prefix : List ℕ → List ℕ → Bool
has_prefix [] s = true
has_prefix (n ∷ p) [] = false
has_prefix (n ∷ p) (m ∷ s) = n == m && has_prefix p s

abbrev ends_codes : List ℕ → List ℕ → Bool
ends_codes p [] = length p == 0
ends_codes p (m ∷ s) = (has_prefix p (m ∷ s) && length p == length (m ∷ s)) || ends_codes p s

abbrev label_text : String × String → String
label_text label = label.0 <> ("=" <> label.1)

-- A taint without a value is given its key as value.
abbrev taint_text : Taint → String
taint_text t =
    t.key <> ("=" <> ((if str_eq t.value "" then t.key else t.value) <> (":" <> t.effect)))

-- `ScriptExecutor`, with what it is built from.
pub record Executor : Type 0 where
  pub hostname : String
  pub labels : Dict String
  pub taints : List Taint
  pub decoders : Decoders
  pub file_system : FileSystem
  pub shell : Shell
  -- `filepath.Dir` and the template parser
  pub dir : String → String
  pub parse_template : String → Result {0} String
  -- `write_files` and `runCmd` of a script
  pub unmarshal : String → Result {0} (List File × List String)
  -- The `kubeletExtraArgs` of a text that is YAML and has a `nodeRegistration`, and the text with
  -- others in their place.
  pub extra_args : String → Option (Dict String)
  pub with_extra_args : String → Dict String → Option String

abbrev pub insert_missing : String → String → Dict String → Dict String
insert_missing k v args = if is_some (lookup k args) then args else insert k v args

abbrev pub is_kubeadm_config : String → Bool
is_kubeadm_config path = contains path "kubeadm" || ends_codes (codes ".yaml") (codes path)

-- The provider ID, the labels and the taints, each where the script has none.
unfoldable pub inject_args : String → Dict String → List Taint → Dict String → Dict String
unfolding generate_provider_id
inject_args hostname labels taints args =
    let identified = insert_missing "provider-id" (generate_provider_id hostname) args in
    let labelled =
      if length labels == 0
      then identified
      else insert_missing "node-labels" (join "," (map label_text labels)) identified in
    if length taints == 0
    then labelled
    else insert_missing "register-with-taints" (join "," (map taint_text taints)) labelled

module _ (x : Executor) where
  unfoldable pub inject_into : Option (Dict String) → String → String
  unfolding inject_args
  inject_into none content = content
  inject_into (some args) content =
      elim (x.with_extra_args content (inject_args x.hostname x.labels x.taints args)) [
        | none ↦ content
        | some text ↦ text
      ]

  unfoldable pub inject : String → String → String
  unfolding inject_into
  inject path content =
      if not (str_eq x.hostname "") && is_kubeadm_config path
      then inject_into (x.extra_args content) content
      else content

  abbrev pub with_content : String → File → File
  with_content text file = record file { content = text }

  unfoldable pub write_parsed : File → Result {0} String → Tried
  unfolding inject write_to_file
  write_parsed file (err e) = ([], some e)
  write_parsed file (ok text) =
      write_to_file x.file_system (with_content (inject file.path text) file)

  unfoldable pub write_decoded : File → Result {0} String → Tried
  unfolding write_parsed
  write_decoded file (err e) = ([], some e)
  write_decoded file (ok text) = write_parsed file (x.parse_template text)

  -- One turn of the loop over `write_files`.
  unfoldable pub write_one : File → Tried
  unfolding write_decoded mkdir_if_not_exists parse_encoding_scheme decode_content
  write_one file =
      mkdir_if_not_exists x.file_system (x.dir file.path)
      then write_decoded file
          (decode_content x.decoders file.content (parse_encoding_scheme x.decoders file.encoding))

  unfoldable pub write_files : List File → Tried
  unfolding write_one
  write_files [] = ([], none)
  write_files (file ∷ files) = write_one file then write_files files

  -- The rest of the commands, after one.
  unfoldable pub continue_with : Ran → Ran → Ran
  continue_with (ran, none) (more, e) = (ran ++ more, e)
  continue_with (ran, some e) rest = (ran, some e)

  unfoldable pub run_commands : List String → Ran
  unfolding run_cmd continue_with
  run_commands [] = ([], none)
  run_commands (cmd ∷ cmds) = continue_with (run_cmd x.shell cmd) (run_commands cmds)

  -- The actions on files, the commands that bash has run, and the error.
  unfoldable pub after_files : List String → Tried → (List FileAction × List String) × Option Error
  unfolding run_commands
  after_files cmds (actions, some e) = ((actions, []), some e)
  after_files cmds (actions, none) = let r = run_commands cmds in ((actions, r.0), r.1)

  unfoldable pub execute_parsed :
      Result {0} (List File × List String) → (List FileAction × List String) × Option Error
  unfolding after_files write_files
  execute_parsed (err e) = (([], []), some e)
  execute_parsed (ok script) = after_files script.1 (write_files script.0)

  -- `Execute`
  unfoldable pub execute : String → (List FileAction × List String) × Option Error
  unfolding execute_parsed
  execute script = execute_parsed (x.unmarshal script)
