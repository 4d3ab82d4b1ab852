-- ===== src/Node/Cabling/Rounds.antt =====
-- The rounds of the cable check: what each of them does to the complaints.
use mathlib.Core.List.{append-nil}
use ironic_temper.Base.{
  ◌≡◌, refl, sym, ◌∙◌, ◌≢◌, ◌↔◌, String, Bool, true, false, not, ◌&&◌, ◌||◌, Option, none, some,
  List, [], ◌∷◌, ◌++◌, ◌=ₛ◌, if◌then◌else◌, arith, eq_iff, Bool-cases, inl, inr,
}
use ironic_temper.Base.Dict.{Dict}
use ironic_temper.Go.{Error, Reply, reply, refused, Result, ok, err, Exec}
use ironic_temper.Node.Inspection.{NodeInterface}
use ironic_temper.Node.Cabling.{
  Entry, Search, at_port, missing, wrong_port, sees, search_entries, complaints, Check,
  check_answer, searched, check_interface, check_interfaces, is_down,
}
use ironic_temper.Text.{contains, is_empty}

-- The port of the first readable entry that sees the address.
pub first_seen : String → List Entry → Option String
first_seen mac [] = none
first_seen mac (refused e ∷ rest) = first_seen mac rest
first_seen mac (reply l ∷ rest) =
    let further = first_seen mac rest in if sees mac l.neighbours then some l.id else further

-- The search ends at the port exactly where the first entry that sees the address is that port's.
search_entries_at_port :
    (i : NodeInterface) (l : List Entry) (e : Option Error)
    → ((search_entries i l e).0 ≡ at_port) ↔ (first_seen i.mac l ≡ some i.port)
unfolding search_entries first_seen
search_entries_at_port i [] e = ground arith
search_entries_at_port i (refused x ∷ rest) e = search_entries_at_port i rest (some x)
search_entries_at_port i (reply l ∷ rest) e =
    ground (arith, search_entries_at_port i rest none, eq_iff l.id i.port)

-- Where it does, it leaves no error behind.
search_entries-error :
    (i : NodeInterface) (l : List Entry) (e : Option Error)
    → (search_entries i l e).0 ≡ at_port
    → (search_entries i l e).1 ≡ none
unfolding search_entries
search_entries-error i [] e h = ground arith
search_entries-error i (refused x ∷ rest) e h = search_entries-error i rest (some x) h
search_entries-error i (reply l ∷ rest) e h = ground (arith, search_entries-error i rest none)

-- The port at which the switch's answer sees the address is the one that netbox names.
abbrev pub seen_at : Option String → String → Bool
seen_at none port = false
seen_at (some p) port = p =ₛ port

abbrev pub answers_for : NodeInterface → Reply (List Entry) → Bool
answers_for i (refused e) = false
answers_for i (reply entries) = seen_at (first_seen i.mac entries) i.port

-- An interface is cabled as netbox says, by the answers of the switches: it does not lead to an aci
-- switch, or it is not down, its switch has an address and answers, and the first port there that
-- sees its MAC address is the one that netbox names.
abbrev pub is_cabled : (String → Reply (List Entry)) → NodeInterface → Bool
is_cabled answer i =
    not (contains i.connection "aci")
    || (not (is_down i.port_link_status)
        && (not (is_empty i.connection_ip) && answers_for i (answer i.connection_ip)))

abbrev pub all_cabled : (String → Reply (List Entry)) → Dict NodeInterface → Bool
all_cabled answer [] = true
all_cabled answer ((name, i) ∷ rest) = is_cabled answer i && all_cabled answer rest

pub append_ne_nil : {A : Type 0} (xs : List A) (y : A) (ys : List A) → xs ++ (y ∷ ys) ≢ []
append_ne_nil [] y ys h = cc
append_ne_nil (x ∷ xs) y ys h = cc

-- What one round does to a check: it complains, or it lets the interface pass.
abbrev pub Passes : Bool → Check → Check → Type 0
Passes true c c' = (c'.no_lldp ≡ c.no_lldp) × (c.error ≡ none → c'.error ≡ none)
Passes false c c' = c'.no_lldp ≢ []

seen_at_iff : (p : Option String) (port : String) → (seen_at p port ≡ true) ↔ (p ≡ some port)
seen_at_iff none port = ground arith
seen_at_iff (some q) port = ground (arith, eq_iff q port)

not_seen : (p : Option String) (port : String) → p ≢ some port → seen_at p port ≡ false
not_seen p port h = elim (Bool-cases (seen_at p port)) [
  | inl e ↦ absurd (h ((seen_at_iff p port).0 e))
  | inr e ↦ e
]

missing_ne : missing ≢ at_port
missing_ne h = cc

wrong_ne : {q : String} → wrong_port q ≢ at_port
wrong_ne h = cc

abbrev pub result_of : {A : Type 0} → Reply A → Result A
result_of (reply a) = ok a
result_of (refused e) = err e

-- What a round makes of a check, if it does not panic.
abbrev pub PassesTo : Bool → Check → Result Check → Type 0
PassesTo b c r = (c' : Check) × (r ≡ ok c') × Passes b c c'

pub check_answer-Passes :
    (name : String) (i : NodeInterface) (r : Reply (List Entry)) (c : Check)
    → PassesTo (answers_for i r) c (check_answer name i (result_of r) c)
unfolding check_answer complaints
check_answer-Passes name i (refused e) c = (_, refl, append_ne_nil c.no_lldp _ [])
check_answer-Passes name i (reply l) c = (
  _,
  refl,
  search_Passes (search_entries i l none) (first_seen i.mac l) (search_entries_at_port i l none)
      (search_entries-error i l none),
)
  where
    search_Passes :
        (r : Search × Option Error) (p : Option String)
        → ((r.0 ≡ at_port) ↔ (p ≡ some i.port))
        → (r.0 ≡ at_port → r.1 ≡ none)
        → Passes (seen_at p i.port) c (searched name r c)
    search_Passes (at_port, e) p found clear =
        rw ((seen_at_iff p i.port).1 (found.0 refl)) (append-nil c.no_lldp, λ _. clear refl)
    search_Passes (missing, e) p found clear =
        rw (not_seen p i.port (λ q. missing_ne (found.1 q))) (append_ne_nil c.no_lldp _ _)
    search_Passes (wrong_port q, e) p found clear =
        rw (not_seen p i.port (λ r. wrong_ne (found.1 r))) (append_ne_nil c.no_lldp _ _)

-- Answers that do not change, in the states of the client that are `Good`.
module _ {K : Type 0} (get_entries : String → Exec K (List Entry)) (Good : K → Type 0)
    (answer : String → Reply (List Entry))
    (stable : (host : String) (k : K) → Good k → (get_entries host k).0 ≡ result_of (answer host))
    (keeps : (host : String) (k : K) → Good k → Good (get_entries host k).1) where
  check_interface-Passes :
      (name : String) (i : NodeInterface) (c : Check) (k : K)
      → Good k
      → PassesTo (is_cabled answer i) c (check_interface get_entries name i c k).0
        × Good (check_interface get_entries name i c k).1
  unfolding check_interface
  check_interface-Passes name i c k g = elim (Bool-cases (contains i.connection "aci")) [
    | inr far ↦ rw far ((c, refl, (refl, λ h. h)), g)
    | inl aci ↦ rw aci (elim (Bool-cases (is_down i.port_link_status)) [
      | inl dead ↦ rw dead ((_, refl, append_ne_nil c.no_lldp _ []), g)
      | inr alive ↦ rw alive (elim (Bool-cases (is_empty i.connection_ip)) [
        | inl lost ↦ rw lost ((_, refl, append_ne_nil c.no_lldp _ []), g)
        | inr known ↦
            rw (known, stable i.connection_ip k g)
              (check_answer-Passes name i (answer i.connection_ip) c, keeps i.connection_ip k g)
      ])
    ])
  ]

  -- The loop ends clean exactly if it was clean before and every interface is cabled.
  unfoldable pub Clean : Check → Check → Bool → Type 0
  Clean c c' all =
      (c.no_lldp ≡ [] → c.error ≡ none → all ≡ true → (c'.no_lldp ≡ []) × (c'.error ≡ none))
      × (c'.no_lldp ≡ [] → (c.no_lldp ≡ []) × (all ≡ true))

  pub check_interfaces-Clean :
      (m : Dict NodeInterface) (c : Check) (k : K)
      → Good k
      → (c' : Check) × ((check_interfaces get_entries m c k).0 ≡ ok c')
        × Clean c c' (all_cabled answer m)
  unfolding check_interfaces Clean
  check_interfaces-Clean [] c k g = (c, refl, ((λ h e a. (h, e)), λ h. (h, refl)))
  check_interfaces-Clean ((name, i) ∷ rest) c k g =
      let ((c1, e1, passes), g1) = check_interface-Passes name i c k g in
      let (c', e', ih) =
        check_interfaces-Clean rest c1 (check_interface get_entries name i c k).1 g1 in
      (c', ground (arith, e1, e'), both (is_cabled answer i) passes ih)
    where
      both :
          (b : Bool) {c1 c' : Check}
          → Passes b c c1
          → Clean c1 c' (all_cabled answer rest)
          → Clean c c' (b && all_cabled answer rest)
      both true p ih = (λ h k a. ih.0 (p.0 ∙ h) (p.1 k) a, λ h. (sym p.0 ∙ (ih.1 h).0, (ih.1 h).1))
      both false p ih = (λ h k a. cc, λ h. absurd (p (ih.1 h).0))
