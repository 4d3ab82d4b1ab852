-- ===== src/Files.antt =====
-- pkg/config/config.go and pkg/config/rules.go: the files of the configuration and of the rules. The
-- reading of a file and the decoding of YAML are parameters; `C` is the configuration.
use ironic_temper.Base.{String, ◌<>◌}
use ironic_temper.Go.{
  message, error_text, Reply, reply, refused, ok, err, Exec, Call, ◌>>=◌, pure, branch,
}
use ironic_temper.Text.{is_empty}

-- An error with a text in front of its own.
abbrev prefixed : {W A : Type 0} → String → Reply A → Exec W A
prefixed text (reply a) w = (ok a, w)
prefixed text (refused e) w = (err (message (text <> error_text e)), w)

module _ {W : Type 0} (read_file : String → Call W String) where
  abbrev read : String → Exec W String
  read path w = let (r, w') = read_file path w in prefixed "read file file: " r w'

  -- `GetConfig`: without a path, the zero value of the configuration.
  unfoldable pub get_config : {C : Type 0} → (String → Reply C) → C → String → Exec W C
  get_config unmarshal zero_config path =
      branch (is_empty path) (pure zero_config)
        (do bytes ← read path; prefixed "parse config file: " (unmarshal bytes))

  -- `GetRules`: without a path, no bytes.
  unfoldable pub get_rules : String → Exec W String
  get_rules path = branch (is_empty path) (pure "") (read path)
