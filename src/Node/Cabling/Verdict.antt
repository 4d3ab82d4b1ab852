-- ===== src/Node/Cabling/Verdict.antt =====
-- The cable check by the answers of the switches, with the client that it makes for itself.
use ironic_temper.Base.{
  ◌≡◌, refl, sym, ap, ◌∙◌, ◌↔◌, String, ◌=ₛ◌, true, false, Option, none, some, List, arith, eq_iff,
  Bool-cases, inl, inr, if◌then◌else◌,
}
use ironic_temper.Base.Dict.{lookup, lookup-insert}
use ironic_temper.Diagnostics.Aci.{AciApi, AciClient, Asking, new_aci, get_client, request, polled}
use ironic_temper.Diagnostics.Aci.Cached.{get_client_co, get_container_found, get_container_polls}
use ironic_temper.Go.{Reply, reply, refused, Result, ok, err, panics}
use ironic_temper.Node.{St}
use ironic_temper.Node.Netbox.Status.{or_empty}
use ironic_temper.Node.Cabling.{
  Entry, children, children_of, entries_at, no_complaint, verdict, run_aci_check,
}
use ironic_temper.Node.Cabling.Rounds.{result_of, all_cabled, Clean, check_interfaces-Clean}

result_of_ok : {A : Type 0} (r : Reply A) (a : A) → result_of r ≡ ok a → r ≡ reply a
result_of_ok (reply b) a h = ground (arith, h)
result_of_ok (refused e) a h = absurd (ground (arith, h))

module _ {W : Type 0} (api : AciApi (List Entry) W) (answer : String → Reply (List Entry)) where
  -- What a poll for a container comes to.
  abbrev pub outcome : Reply (Unit {0}) × Asking (List Entry) W → Result (List Entry)
  outcome (reply u, s) = ok (children s.co)
  outcome (refused e, s) = if s.panicked then panics "nil pointer dereference" else err e

  -- Each poll for a host comes to the same answer, in whatever state the world is.
  pub record AnswersAs : Type 0 where
    pub answers :
        (host : String) (w : W)
        → outcome
            (api.poll 5 120 (request api host) (record { co = none; panicked = false; world = w }))
          ≡ result_of (answer host)

  -- What the client holds is what the hosts answer.
  abbrev Good : AciClient (List Entry) W → Type 0
  Good a =
      (host : String) (co : Option (List Entry))
      → lookup host a.co ≡ some co
      → answer host ≡ reply (children co)

  children_polled :
      (host : String) (r : Reply (Unit {0})) (s : Asking (List Entry) W)
      (a : AciClient (List Entry) W)
      → (children_of (polled api host r s a)).0 ≡ outcome (r, s)
  children_polled host (reply u) s a = refl
  children_polled host (refused e) s a = ground arith

  polled-Good :
      (host : String) (r : Reply (Unit {0})) (s : Asking (List Entry) W)
      (a : AciClient (List Entry) W)
      → Good a
      → outcome (r, s) ≡ result_of (answer host)
      → Good (children_of (polled api host r s a)).1
  polled-Good host (refused e) s a g h key co l = g key co (ground (arith, l))
  polled-Good host (reply u) s a g h key co l = elim (Bool-cases (host =ₛ key)) [
    | inl e ↦
        let same : host ≡ key = (eq_iff host key).0 e in
        let held : s.co ≡ co = ground (arith, e, l, lookup-insert host key s.co a.co) in
        result_of_ok (answer key) (children co) (ground (arith, h, same, held))
    | inr e ↦ g key co (ground (arith, e, l, lookup-insert host key s.co a.co))
  ]

  module _ (same : AnswersAs) where
    -- A call for a host answers as the host does, and holds nothing else.
    called :
        (host : String) (a : AciClient (List Entry) W)
        → Good a
        → ((entries_at api host a).0 ≡ result_of (answer host)) × Good (entries_at api host a).1
    unfolding entries_at
    called host a g = looked (lookup host a.co) refl
      where
        b : AciClient (List Entry) W
        b = get_client api host a

        asked : Reply (Unit {0}) × Asking (List Entry) W
        asked =
            api.poll 5 120 (request api host)
              (record { co = none; panicked = false; world = b.world })

        held : Good b
        held key co l = g key co (ap (lookup key) (sym (get_client_co api host a)) ∙ l)

        looked :
            (l : Option (Option (List Entry)))
            → lookup host a.co ≡ l
            → ((entries_at api host a).0 ≡ result_of (answer host)) × Good (entries_at api host a).1
        looked (some co) e =
            rw (get_container_found api host a co e) (ground (arith, g host co e), g)
        looked none e = rw (get_container_polls api host a e) (
          children_polled host asked.0 asked.1 b ∙ same.answers host b.world,
          polled-Good host asked.0 asked.1 b held (same.answers host b.world),
        )

  new_aci-Good : (w : W) → Good (new_aci w)
  unfolding lookup
  new_aci-Good w h co l = absurd (ground (arith, l))

  -- Where each switch answers every poll in the same way, runACICheck returns no error exactly where
  -- every interface that leads to an aci switch is not down, has the address of its switch, and is
  -- first seen there at the port that netbox names.
  pub run_aci_check_ok :
      AnswersAs
      → (s : St W)
      → ((run_aci_check api s).0 ≡ ok tt) ↔ (all_cabled answer (or_empty s.node.interfaces) ≡ true)
  unfolding run_aci_check verdict Clean
  run_aci_check_ok same s =
      let m = or_empty s.node.interfaces in
      let start = new_aci {C = List Entry} s.world in
      let (c, e, clean) =
        check_interfaces-Clean (entries_at api) Good answer (λ h k g. (called same h k g).0)
          (λ h k g. (called same h k g).1) m no_complaint start (new_aci-Good s.world) in
      (λ h. (clean.1 (ground (arith, e, h))).1, λ a. ground (arith, e, clean.0 refl refl a))
