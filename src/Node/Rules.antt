-- ===== src/Node/Rules.antt =====
-- `getRules` of pkg/node/openstack.go: the rules for ironic from the user's template.
use ironic_temper.Base.{String, ◌<>◌}
use ironic_temper.Go.{message, error_text, Reply, reply, refused, Call, ◌>>=◌, pure, fail}
use ironic_temper.Node.{Method, this}
use ironic_temper.Node.Baremetal.{Rule}
use ironic_temper.Node.Keeps.{Keeps, keeps_rules}

-- The calls of text/template and of encoding/json. A parsed template is its text. Its execution may
-- call the methods of the node that `getRules` hands to it.
pub record RulesApi (W : Type 0) : Type 0 where
  pub parse_files : String → Call W String
  pub execute : String → Method W String
  -- what the decoder writes to the rules, with or without an error
  pub unmarshal : String → Rule

module _ {W : Type 0} (api : RulesApi W) where
  parsed : Reply String → Method W String
  parsed (reply t) = pure t
  parsed (refused e) = fail (message ("Error parsing rules: " <> error_text e))

  parse : String → Method W String
  unfolding parsed
  parse path s = let (r, w) = api.parse_files path s.world in parsed r (record s { world = w })

  -- `getRules`. The error of the decoder is dropped.
  unfoldable pub get_rules : Method W Rule
  unfolding parse
  get_rules = do n ← this; t ← parse n.cfg.rules_path; out ← api.execute t; pure (api.unmarshal out)

  parsed-Keeps : (r : Reply String) → Keeps (parsed r)
  unfolding parsed
  parsed-Keeps (reply t) = search keeps_rules depth 20
  parsed-Keeps (refused e) = search keeps_rules depth 20

  parse-Keeps : (path : String) → Keeps (parse path)
  unfolding parse
  parse-Keeps path = record {
    status = λ s.
        (parsed-Keeps (api.parse_files path s.world).0).status
          (record s { world = (api.parse_files path s.world).1 });
    tasks = λ s.
        (parsed-Keeps (api.parse_files path s.world).0).tasks
          (record s { world = (api.parse_files path s.world).1 });
  }

  -- The rules are made without a write to the status or the tasks, if the template makes none.
  pub get_rules-Keeps : ((t : String) → Keeps (api.execute t)) → Keeps get_rules
  unfolding get_rules
  get_rules-Keeps k = search (keeps_rules, parse-Keeps, k) depth 20
