-- ===== src/Diagnostics/Aci.antt =====
-- pkg/diagnostics/aci.go: what the fabric's controllers say of their neighbours, asked once for each
-- controller. The client of the controllers is a parameter.
pub mod Cached
use ironic_temper.Base.{
  ◌≡◌, refl, ℕ, String, Bool, true, false, Option, none, some, List, [], ◌∷◌, ◌==◌, if◌then◌else◌,
  arith, ◌=ₛ◌, eq_iff, eq_refl,
}
use ironic_temper.Base.Dict.{Dict, lookup, insert, lookup-insert}
use ironic_temper.Go.{
  Error, message, error_text, Reply, reply, refused, Result, ok, err, panics, Call,
}
use ironic_temper.Go.Polling.{Poll}
use ironic_temper.Text.{contains}

-- What `Do` returns beside its error, which is dropped: a container and the status of the response,
-- each of which may be nil.
pub record Done (C : Type 0) : Type 0 where
  pub container : Option C
  pub status_code : Option ℕ

-- What the condition shares with `GetContainer`: the variable `co`, and whether it has panicked.
pub record Asking (C W : Type 0) : Type 0 where
  pub co : Option C
  pub panicked : Bool
  pub world : W

pub record AciApi (C W : Type 0) : Type 0 where
  -- the client of a host, which is made once
  pub new_client : String → W → W
  pub poll : Poll (Asking C W)
  -- the request for the neighbours, with a login where one is due
  pub make_rest_request : String → Call W (Unit {0})
  pub do_request : String → W → Done C × W
  pub check_for_errors : Option C → Result (Unit {0})

-- `ACIClient`: its two maps, and the world. An entry of `co` may be a nil pointer.
pub record AciClient (C W : Type 0) : Type 0 where
  pub c : Dict (Unit {0})
  pub co : Dict (Option C)
  pub world : W

-- `NewACI`
abbrev pub new_aci : {C W : Type 0} → W → AciClient C W
new_aci w = record { c = []; co = []; world = w }

module _ {C W : Type 0} (api : AciApi C W) where
  -- `GetClient`
  unfoldable pub get_client : String → AciClient C W → AciClient C W
  get_client host a = elim (lookup host a.c) [
    | some u ↦ a
    | none ↦ record a { c = insert host tt a.c; world = api.new_client host a.world }
  ]

  abbrev panicking : String → Asking C W → Reply Bool × Asking C W
  panicking text s = (refused (message text), record s { panicked = true })

  abbrev checked : Result (Unit {0}) → Asking C W → Reply Bool × Asking C W
  checked (ok u) s = (reply true, s)
  checked (err e) s = (reply false, s)
  checked (panics p) s = panicking p s

  -- The status of the response, which is a nil pointer where there was none.
  abbrev judged : Option ℕ → Asking C W → Reply Bool × Asking C W
  judged none s = panicking "nil pointer dereference" s
  judged (some code) s =
      if code == 503
      then (reply false, s)
      else if code == 200
      then (reply true, s)
      else checked (api.check_for_errors s.co) s

  abbrev requested : String → Reply (Unit {0}) → Asking C W → Reply Bool × Asking C W
  requested host (refused e) s =
      (if contains (error_text e) "invalid character '<'" then reply false else refused e, s)
  requested host (reply u) s =
      let (d, w) = api.do_request host s.world in
      judged d.status_code (record s { co = d.container; world = w })

  -- The condition `request`.
  unfoldable pub request : String → Call (Asking C W) Bool
  request host s =
      let (r, w) = api.make_rest_request host s.world in requested host r (record s { world = w })

  abbrev pub polled :
      String → Reply (Unit {0}) → Asking C W → AciClient C W → Result (Option C) × AciClient C W
  polled host (reply u) s a = (ok s.co, record a { co = insert host s.co a.co; world = s.world })
  polled host (refused e) s a =
      (if s.panicked then panics "nil pointer dereference" else err e, record a { world = s.world })

  -- `GetContainer`
  unfoldable pub get_container : String → AciClient C W → Result (Option C) × AciClient C W
  get_container host a = elim (lookup host a.co) [
    | some co ↦ (ok co, a)
    | none ↦
        let b = get_client host a in
        let (r, s) =
          api.poll 5 120 (request host) (record { co = none; panicked = false; world = b.world }) in
        polled host r s b
  ]

  -- What any number of calls leave, however each of them ends.
  unfoldable pub after : List String → AciClient C W → AciClient C W
  after [] a = a
  after (host ∷ hosts) a = after hosts (get_container host a).1
