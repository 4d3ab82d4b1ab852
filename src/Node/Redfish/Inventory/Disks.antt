-- ===== src/Node/Redfish/Inventory/Disks.antt =====
-- The disks of the inventory and the root disk, by the drives that the server names.
use mathlib.Core.List.{append-nil, append_assoc}
use ironic_temper.Base.{
  ℕ, ◌≡◌, refl, ◌∙◌, ap, Bool, true, false, not, ◌&&◌, List, [], ◌∷◌, ◌++◌, map, arith, ◌==◌,
  if◌then◌else◌, Bool-cases, inl, inr,
}
use ironic_temper.Go.{Reply, reply, refused, ok, Call, inspect}
use ironic_temper.Node.{St}
use ironic_temper.Node.Inspection.{RootDisk, Disk}
use ironic_temper.Node.Remote.{Drive}
use ironic_temper.Node.Redfish.{RedfishApi, redfish, is_connected}
use ironic_temper.Node.Redfish.Inventory.{
  is_root_disk_name, disk_of, root_disk_of, no_root_disk, add_drives, kept, read_drives, set_disks,
  with_inventory,
}

-- The drives that are named as root disks.
pub named_as_root : List Drive → List Drive
named_as_root [] = []
named_as_root (d ∷ ds) =
    let rest = named_as_root ds in if is_root_disk_name d.name then d ∷ rest else rest

pub all_rotate : List Drive → Bool
all_rotate [] = true
all_rotate (d ∷ ds) = not (d.rotation_speed_rpm == 0) && all_rotate ds

-- The name, the maker, the model and the size of the last drive, or what is there already.
pub last_of : (ℕ → ℕ) → RootDisk → List Drive → RootDisk
last_of scaled root [] = root
last_of scaled root (d ∷ ds) =
    last_of scaled
      (record root {
        size = scaled d.capacity_bytes;
        name = d.name;
        model = d.model;
        vendor = d.manufacturer;
      })
      ds

-- The root disk by the drives that are named so.
abbrev pub root_of : (ℕ → ℕ) → RootDisk → List Drive → RootDisk
root_of scaled root ds = record (last_of scaled root ds) {
  rotational = root.rotational && all_rotate ds;
}

last_of-rotational :
    (scaled : ℕ → ℕ) (root : RootDisk) (b r : Bool) (ds : List Drive)
    → record (last_of scaled (record root { rotational = b }) ds) { rotational = r }
      ≡ record (last_of scaled root ds) { rotational = r }
unfolding last_of
last_of-rotational scaled root b r [] = refl
last_of-rotational scaled root b r (d ∷ ds) =
    last_of-rotational scaled
      (record root {
        size = scaled d.capacity_bytes;
        name = d.name;
        model = d.model;
        vendor = d.manufacturer;
      })
      b r ds

rotational_and : (still b c : Bool) → ((if still then false else b) && c) ≡ (b && (not still && c))
rotational_and true true c = refl
rotational_and true false c = refl
rotational_and false b c = refl

-- One more drive, named as a root disk or not.
root_of-root_disk_of :
    (scaled : ℕ → ℕ) (root : RootDisk) (d : Drive) (ds : List Drive)
    → root_of scaled (root_disk_of scaled root d) (named_as_root ds)
      ≡ root_of scaled root (named_as_root (d ∷ ds))
unfolding root_disk_of last_of all_rotate named_as_root
root_of-root_disk_of scaled root d ds = elim (Bool-cases (is_root_disk_name d.name)) [
  | inr e ↦ rw e refl
  | inl e ↦
      let rest = named_as_root ds in
      let with_d : RootDisk = record root {
        size = scaled d.capacity_bytes;
        name = d.name;
        model = d.model;
        vendor = d.manufacturer;
      } in
      let dim : Bool = if d.rotation_speed_rpm == 0 then false else root.rotational in
      rw e (
        last_of-rotational scaled with_d dim (dim && all_rotate rest) rest
        ∙ ap (λ r. record (last_of scaled with_d rest) { rotational = r })
            (rotational_and (d.rotation_speed_rpm == 0) root.rotational (all_rotate rest)))
]

add_drives-root_of :
    (scaled : ℕ → ℕ) (ds : List Drive) (disks : List Disk) (root : RootDisk)
    → add_drives scaled ds (disks, root)
      ≡ (disks ++ map (disk_of scaled) ds, root_of scaled root (named_as_root ds))
unfolding add_drives last_of all_rotate named_as_root
add_drives-root_of scaled [] disks root =
    rw append-nil (ap (λ b. (disks, record root { rotational = b })) (ground arith))
add_drives-root_of scaled (d ∷ ds) disks root =
    let next =
      add_drives-root_of scaled ds (disks ++ (disk_of scaled d ∷ []))
        (root_disk_of scaled root d) in
    next ∙ rw (append_assoc, root_of-root_disk_of) refl

-- What the server answers about its storages.
pub record AnswersDrives {W : Type 0} (api : RedfishApi W) (storages : List ℕ)
    (drives : ℕ → Reply (List Drive)) : Type 0 where
  pub all_storages : (w : W) → (api.storages w).0 ≡ reply storages
  pub drives_of : (s : ℕ) (w : W) → (api.drives s w).0 ≡ drives s

-- The drives that could be read, storage by storage.
pub readable : (ℕ → Reply (List Drive)) → List ℕ → List Drive
readable drives [] = []
readable drives (s ∷ ss) = kept (drives s) ++ readable drives ss

module _ {W : Type 0} (api : RedfishApi W) where
  -- A call of a connected node whose error is looked at.
  inspect_answer :
      {A : Type 0} (c : Call W A) (r : Reply A) (s : St W)
      → is_connected s.node.redfish ≡ true
      → (c s.world).0 ≡ r
      → inspect (redfish api c) s ≡ (ok r, record s { world = (c s.world).1 })
  inspect_answer c (reply x) s h e = ground (arith, h, e)
  inspect_answer c (refused x) s h e = ground (arith, h, e)

  add_drives-append :
      (scaled : ℕ → ℕ) (ds es : List Drive) (acc : List Disk × RootDisk)
      → add_drives scaled (ds ++ es) acc ≡ add_drives scaled es (add_drives scaled ds acc)
  unfolding add_drives
  add_drives-append scaled [] es acc = refl
  add_drives-append scaled (d ∷ ds) es (disks, root) =
      add_drives-append scaled ds es (disks ++ (disk_of scaled d ∷ []), root_disk_of scaled root d)

  read_drives-readable :
      (storages : List ℕ) (drives : ℕ → Reply (List Drive))
      → AnswersDrives api storages drives
      → (ss : List ℕ) (acc : List Disk × RootDisk) (s : St W) → is_connected s.node.redfish ≡ true
      → ((read_drives api ss acc s).0 ≡ ok (add_drives api.scaled (readable drives ss) acc))
        × ((read_drives api ss acc s).1.node ≡ s.node)
  unfolding read_drives readable add_drives
  read_drives-readable storages drives a [] acc s h = (refl, refl)
  read_drives-readable storages drives a (x ∷ ss) acc s h =
      let asked = inspect_answer (api.drives x) (drives x) s h (a.drives_of x s.world) in
      let s' : St W = record s { world = (api.drives x s.world).1 } in
      let rest =
        read_drives-readable storages drives a ss (add_drives api.scaled (kept (drives x)) acc) s'
          h in
      rw (asked, add_drives-append) rest

  -- Where the server answers for its storages and their drives in the same way at any time, setDisks on a
  -- connected node puts every drive that could be read into the inventory, in order. The root disk has
  -- the name, the maker, the model and the size of the last of these drives whose name is one of a root
  -- disk, and rotates where all drives of such a name do.
  pub set_disks-readable :
      (storages : List ℕ) (drives : ℕ → Reply (List Drive))
      → AnswersDrives api storages drives
      → (s : St W) → is_connected s.node.redfish ≡ true
      → let all = readable drives storages in
        let out = set_disks api s in
        (out.0 ≡ ok tt)
        × (out.1.node.inspection.inventory.disks ≡ map (disk_of api.scaled) all)
        × (out.1.node.inspection.root_disk ≡ root_of api.scaled no_root_disk (named_as_root all))
  unfolding set_disks
  set_disks-readable storages drives a s h =
      let asked = inspect_answer api.storages (reply storages) s h (a.all_storages s.world) in
      let s' : St W = record s {
        world = (api.storages s.world).1;
        node = with_inventory (λ i. record i { disks = [] }) s.node;
      } in
      let (r, n) = read_drives-readable storages drives a storages ([], no_root_disk) s' h in
      let read =
        r ∙ ap ok (add_drives-root_of api.scaled (readable drives storages) [] no_root_disk) in
      rw (asked, read) (refl, refl, refl)
