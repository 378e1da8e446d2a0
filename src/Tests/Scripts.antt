-- ===== src/Tests/Scripts.antt =====
-- The execution of scripts tried on small ones.
use cluster_api_provider_bri.Prelude.{◌≡◌, refl, inr, inl, String, none, List, [], ◌∷◌}
use cluster_api_provider_bri.Prelude.Dict.{lookup}
use cluster_api_provider_bri.Api.Meta.{ok, err, not_found}
use cluster_api_provider_bri.Agent.Tls.{generate_provider_id}
use cluster_api_provider_bri.CloudInit.Command.{run_cmd, has_dangerous}
use cluster_api_provider_bri.CloudInit.Encoding.{Decoders, parse_encoding_scheme, decode_content}
use cluster_api_provider_bri.CloudInit.Encoding.Laws.{decode-encode}
use cluster_api_provider_bri.CloudInit.Script.{Executor, inject_args, run_commands, continue_with}
use cluster_api_provider_bri.CloudInit.Script.Inject.{or_default, inject-provider_id}

-- Decoders of texts that are their own codes.
abbrev decoders : Decoders
decoders = record { normal_scheme = λ e. e; decode_string = λ t. ok t; gunzip_data = λ t. ok t }

decode-encode_example :
    decode_content decoders "text" (parse_encoding_scheme decoders "gzip+base64") ≡ ok "text"
decode-encode_example =
    decode-encode decoders (λ t. t) (λ t. t) "gzip+base64" "text" (λ t. refl) (λ t. refl)
      (inr (inl refl))

abbrev executor : Executor
executor = record {
  hostname = "a";
  labels = [];
  taints = [];
  decoders = decoders;
  file_system = record {
    stat = λ path. none;
    reply = λ action. none;
    parse_uint = λ base text. ok 0;
    lookup_user = λ user. ok ("0", "0");
  };
  shell = λ cmd. none;
  dir = λ path. "/";
  parse_template = λ text. ok text;
  unmarshal = λ text. err not_found;
  extra_args = λ text. none;
  with_extra_args = λ text args. none;
}

abbrev commands : List String
commands = "echo a" ∷ "echo $HOME" ∷ "ls" ∷ []

-- The second command is not run.
two_run : (run_commands executor commands).0 ≡ "echo a" ∷ "ls" ∷ []
unfolding run_commands continue_with run_cmd has_dangerous
two_run = refl

inject-provider_id_example :
    lookup "provider-id" (inject_args "a" (("zone", "x") ∷ []) [] [])
    ≡ or_default (generate_provider_id "a") (lookup "provider-id" [])
inject-provider_id_example = inject-provider_id "a" (("zone", "x") ∷ []) [] []
