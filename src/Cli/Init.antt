-- ===== src/Cli/Init.antt =====
-- `init_config`, and `Config::example_toml` in crates/privacy_proxy_core/src/config.rs.
use privacy_proxy.Base.{
  ℕ, Bool, true, false, not, ◌&&◌, Option, none, some, [], ◌∷◌, ◌++◌, take, if◌then◌else◌,
}
use privacy_proxy.Text.{Bytes, codes, is_empty}
use privacy_proxy.Error.{ok, err}
use privacy_proxy.Cli.Commands.{
  Failure, create_directory, open_config, create_config, write_config, World, System, update,
  Outcome, write, file, to_stdout,
}

unfoldable pub example_toml : Bytes
example_toml =
    codes "mode = \"mask\"\n"
    ++ codes "\n"
    ++ codes "redact = [\n"
    ++ codes "  \"email\",\n"
    ++ codes "  \"ip\",\n"
    ++ codes "  \"jwt\",\n"
    ++ codes "  \"bearer_token\",\n"
    ++ codes "  \"api_key\",\n"
    ++ codes "  \"cookie\",\n"
    ++ codes "  \"credit_card\",\n"
    ++ codes "  \"iban\",\n"
    ++ codes "  \"url_sensitive_params\"\n"
    ++ codes "]\n"
    ++ codes "\n"
    ++ codes "fields_deny = [\n"
    ++ codes "  \"password\",\n"
    ++ codes "  \"token\",\n"
    ++ codes "  \"secret\",\n"
    ++ codes "  \"apiKey\",\n"
    ++ codes "  \"authorization\",\n"
    ++ codes "  \"cookie\",\n"
    ++ codes "  \"set-cookie\"\n"
    ++ codes "]\n"
    ++ codes "\n"
    ++ codes "fields_allow = [\n"
    ++ codes "  \"trace_id\",\n"
    ++ codes "  \"span_id\",\n"
    ++ codes "  \"request_id\"\n"
    ++ codes "]\n"
    ++ codes "\n"
    ++ codes "hash_env = \"PRIVACY_PROXY_HASH_KEY\"\n"
    ++ codes "sample_limit = 10000\n"
    ++ codes "max_line_bytes = 1048576\n"
    ++ codes "max_body_bytes = 10485760\n"

-- What follows a part of a command that succeeded.
unfoldable pub part_then : Outcome → (World → Outcome) → Outcome
part_then part later = elim part.result [ err failure ↦ part | ok _ ↦ later part.world ]

module _ (s : System) where
  -- The directories above the file are made.
  abbrev pub dirs_made : World → Bytes → (Bytes → Bool) × Bool → Outcome
  dirs_made world parent (dirs, success) = record {
    world = record world { dirs = dirs };
    result = if success then ok tt else err (create_directory parent);
  }

  unfoldable pub parent_made : World → Bytes → Outcome
  parent_made world path = elim (s.parent path) [
    | none ↦ record { world = world; result = ok tt }
    | some parent ↦
        if is_empty parent
        then record { world = world; result = ok tt }
        else dirs_made world parent (s.create_dir_all parent world.dirs)
  ]

  abbrev pub exists : Option Bytes → Bool
  exists none = false
  exists (some content) = true

  -- The file is empty behind both ways of opening it.
  abbrev pub opened_as : World → Bytes → Bool → Failure → Outcome
  opened_as world path success failure =
      if success
      then record {
        world = record world { files = update world.files (s.file_at path) [] };
        result = ok tt;
      }
      else record { world = world; result = err failure }

  -- `open`, with `truncate` or with `create_new`
  unfoldable pub config_opened : World → Bytes → Bool → Outcome
  config_opened world path true = opened_as world path (s.can_write path) (open_config path)
  config_opened world path false =
      opened_as world path (not (exists (world.files (s.file_at path))) && s.can_write path)
        (create_config path)

  -- The example is written to the open file, and told; or only the first bytes of it.
  abbrev pub written_config : World → Bytes → Option ℕ → Outcome
  written_config world path (some count) = record {
    world = write (file (s.file_at path)) (take count example_toml) world;
    result = err (write_config path);
  }
  written_config world path none = record {
    world =
        write to_stdout (codes "wrote " ++ (path ++ b'\n' ∷ []))
          (write (file (s.file_at path)) example_toml world);
    result = ok tt;
  }

  unfoldable pub init_config : Bytes → Bool → World → Outcome
  unfolding part_then parent_made config_opened
  init_config path force world = part_then (parent_made world path) (λ made.
      part_then (config_opened made path force)
        (λ opened. written_config opened path (s.write_all path example_toml)))
