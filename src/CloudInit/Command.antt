-- ===== src/CloudInit/Command.antt =====
-- Running a command: `CmdRunner.RunCmd` of agent/cloudinit/cmd_runner.go.
use Prim.Native.String.{len}
use cluster_api_provider_bri.Prelude.{
  ℕ, ◌==◌, leb, String, Bool, not, ◌&&◌, ◌||◌, Option, none, List, [], ◌∷◌, any, codes,
  if◌then◌else◌,
}
use cluster_api_provider_bri.Api.Meta.{Error}

abbrev pub max_command_length : ℕ
max_command_length = 4096

-- The class of `dangerousPattern`: `;`, `&`, `|`, `$` and the backquote.
abbrev pub is_dangerous : ℕ → Bool
is_dangerous n = n == 59 || n == 38 || n == 124 || n == 36 || n == 96

-- `unicode.IsSpace`
abbrev pub is_space : ℕ → Bool
is_space n =
    (leb 9 n && leb n 13)
    || n == 32
    || n == 133
    || n == 160
    || n == 5760
    || (leb 8192 n && leb n 8202)
    || n == 8232
    || n == 8233
    || n == 8239
    || n == 8287
    || n == 12288

-- `strings.TrimSpace(cmd) == ""`
abbrev pub is_blank : String → Bool
is_blank cmd = not (any (λ n. not (is_space n)) (codes cmd))

-- What `/bin/bash -c` replies.
abbrev pub Shell : Type 0
Shell = String → Option Error

-- The commands that bash has run, and the error.
abbrev pub Ran : Type 0
Ran = List String × Option Error

unfoldable pub has_dangerous : String → Bool
has_dangerous cmd = any is_dangerous (codes cmd)

unfoldable pub run_cmd : Shell → String → Ran
unfolding has_dangerous
run_cmd sh cmd =
    if is_blank cmd
    then ([], none)
    else if not (leb (len cmd) max_command_length)
    then ([], none)
    else if has_dangerous cmd
    then ([], none)
    else (cmd ∷ [], sh cmd)
