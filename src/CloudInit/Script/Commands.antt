-- ===== src/CloudInit/Script/Commands.antt =====
-- Which commands of a script are run.
use cluster_api_provider_bri.Prelude.{String, Bool, not, ◌&&◌, leb}
use Prim.Native.String.{len}
use cluster_api_provider_bri.CloudInit.Command.{is_blank, has_dangerous, max_command_length}

-- The commands that `RunCmd` hands to bash.
pub runs : String → Bool
runs cmd = not (is_blank cmd) && leb (len cmd) max_command_length && not (has_dangerous cmd)
