-- ===== src/Diagnostics/Aci/Cached.antt =====
-- How often a controller of the switches is asked.
use ironic_temper.Base.{
  ◌≡◌, refl, String, Option, none, some, List, [], ◌∷◌, eq_iff, eq_refl, arith, false, ◌∙◌, ap,
}
use ironic_temper.Base.Dict.{lookup, lookup-insert}
use ironic_temper.Go.{Reply, reply, refused, ok}
use ironic_temper.Diagnostics.Aci.{
  AciApi, AciClient, Asking, get_client, polled, request, get_container, after,
}

module _ {C W : Type 0} (api : AciApi C W) where
  pub get_client_co : (host : String) (a : AciClient C W) → (get_client api host a).co ≡ a.co
  unfolding get_client
  get_client_co host a = looked (lookup host a.c) refl
    where
      looked : (l : Option (Unit {0})) → lookup host a.c ≡ l → (get_client api host a).co ≡ a.co
      looked none e = ground (arith, e)
      looked (some u) e = ground (arith, e)

  -- What was answered for a host stays, whatever is asked for another one.
  polled_keeps :
      (host other : String) (r : Reply (Unit {0})) (s : Asking C W) (a : AciClient C W)
      (c : Option C)
      → lookup other a.co ≡ none
      → lookup host a.co ≡ some c
      → lookup host (polled api other r s a).1.co ≡ some c
  polled_keeps host other (refused e) s a c n h = h
  polled_keeps host other (reply u) s a c n h =
      ground (arith, h, n, lookup-insert other host s.co a.co, eq_iff other host)

  pub get_container_found :
      (host : String) (a : AciClient C W) (c : Option C)
      → lookup host a.co ≡ some c
      → get_container api host a ≡ (ok c, a)
  unfolding get_container
  get_container_found host a c h = ground (arith, h)

  -- A host whose answer is not held is polled.
  pub get_container_polls :
      (host : String) (a : AciClient C W)
      → lookup host a.co ≡ none
      → let b = get_client api host a in
        let (r, s) =
          api.poll 5 120
            (request api host)
            (record { co = none; panicked = false; world = b.world }) in
        get_container api host a ≡ polled api host r s b
  unfolding get_container
  get_container_polls host a h = ground (arith, h)

  pub get_container_keeps :
      (host other : String) (a : AciClient C W) (c : Option C)
      → lookup host a.co ≡ some c
      → lookup host (get_container api other a).1.co ≡ some c
  unfolding get_container
  get_container_keeps host other a c h = looked (lookup other a.co) refl
    where
      b : AciClient C W
      b = get_client api other a

      asked : Reply (Unit {0}) × Asking C W
      asked =
          api.poll 5 120 (request api other)
            (record { co = none; panicked = false; world = b.world })

      same : b.co ≡ a.co
      same = get_client_co other a

      looked :
          (l : Option (Option C))
          → lookup other a.co ≡ l
          → lookup host (get_container api other a).1.co ≡ some c
      looked (some d) e = ground (arith, e, h)
      looked none e =
          let k =
            polled_keeps host other asked.0 asked.1 b c (ap (lookup other) same ∙ e)
              (ap (lookup host) same ∙ h) in
          ground (arith, e, k)

  polled_stores :
      (host : String) (r : Reply (Unit {0})) (s : Asking C W) (a t : AciClient C W) (c : Option C)
      → polled api host r s a ≡ (ok c, t)
      → lookup host t.co ≡ some c
  polled_stores host (refused e) s a t c h = absurd (ground (arith, h))
  polled_stores host (reply u) s a t c h =
      ground (arith, h, lookup-insert host host s.co a.co, eq_refl host)

  pub get_container_stores :
      (host : String) (a t : AciClient C W) (c : Option C)
      → get_container api host a ≡ (ok c, t)
      → lookup host t.co ≡ some c
  unfolding get_container
  get_container_stores host a t c h = looked (lookup host a.co) refl
    where
      b : AciClient C W
      b = get_client api host a

      asked : Reply (Unit {0}) × Asking C W
      asked =
          api.poll 5 120 (request api host)
            (record { co = none; panicked = false; world = b.world })

      looked : (l : Option (Option C)) → lookup host a.co ≡ l → lookup host t.co ≡ some c
      looked (some d) e = ground (arith, e, h)
      looked none e = polled_stores host asked.0 asked.1 b t c (ground (arith, e, h))

  after_keeps :
      (host : String) (hosts : List String) (a : AciClient C W) (c : Option C)
      → lookup host a.co ≡ some c
      → lookup host (after api hosts a).co ≡ some c
  unfolding after
  after_keeps host [] a c h = h
  after_keeps host (other ∷ hosts) a c h =
      after_keeps host hosts (get_container api other a).1 c (get_container_keeps host other a c h)

  -- Once a call has returned the answer of a host, every later call for that host returns the same
  -- and leaves the client and the world as they are, whatever other calls were made in between and
  -- however these have ended.
  pub get_container_once :
      (host : String) (hosts : List String) (a t : AciClient C W) (c : Option C)
      → get_container api host a ≡ (ok c, t)
      → get_container api host (after api hosts t) ≡ (ok c, after api hosts t)
  get_container_once host hosts a t c h =
      get_container_found host (after api hosts t) c
        (after_keeps host hosts t c (get_container_stores host a t c h))
