-- ===== src/Packages/Deleting.antt =====
-- internal/dms/storage/packages.go: Delete, and the three content operations.
use netweave.Common.{
  ℕ, String, ◌≡◌, inl, inr, Bool, true, false, ◌&&◌, none, some, List, arith, if◌then◌else◌,
  contains, Unique, Map, lookup, insert, erase, lookup-insert, lookup-erase, eq_iff, Option-cases,
  ◌==◌, ok, sym, subst,
}
use netweave.Packages.{
  Package, PackageStore, ids_of, exists, unindex, delete, save_content, delete_content,
}
use netweave.Packages.Index.{contains-unindex, unindex-Unique}
use netweave.Packages.Invariant.{IsConsistent}

-- What a successful `delete` leaves.
pub record Deleted (id : String) (s t : PackageStore) (p : Package) : Type 0 where
  pub found : lookup id s.packages ≡ some p
  pub packages : t.packages ≡ erase id s.packages
  pub content : t.content ≡ erase id s.content
  pub by_name : t.by_name ≡ unindex id p.name (lookup p.name s.by_name) s.by_name

pub delete-Deleted :
    (cancelled : Bool) (s t : PackageStore) (id : String)
    → delete cancelled s id ≡ ok t
    → (p : Package) × Deleted id s t p
unfolding delete
delete-Deleted cancelled s t id h = elim (Option-cases (lookup id s.packages)) [
  | inl e ↦ absurd (ground arith)
  | inr (p, e) ↦ (
    p,
    record { found = e; packages = ground arith; content = ground arith; by_name = ground arith },
  )
]

module _ {id : String} {s t : PackageStore} {p : Package} (d : Deleted id s t p) where
  pub lookup-deleted :
      (i : String) → lookup i t.packages ≡ (if id == i then none else lookup i s.packages)
  lookup-deleted i = rw d.packages (lookup-erase id i s.packages)

  pub contains-deleted :
      (name i : String)
      → contains (ids_of name t.by_name) i
        ≡ (if p.name == name && id == i then false else contains (ids_of name s.by_name) i)
  contains-deleted name i = rw d.by_name (contains-unindex id p.name name i s.by_name)

  Deleted-backed :
      IsConsistent s
      → (name i : String) → contains (ids_of name t.by_name) i ≡ true
      → (q : Package) × (lookup i t.packages ≡ some q) × (q.name ≡ name)
  Deleted-backed v name i c =
      let (q, e, n) = v.backed name i (ground (arith, contains-deleted name i)) in
      (
        q,
        ground (
          arith,
          contains-deleted name i,
          lookup-deleted i,
          d.found,
          eq_iff id i,
          eq_iff p.name name,
        ),
        n,
      )

  Deleted-distinct : Unique s.by_name → Unique t.by_name
  Deleted-distinct u = rw d.by_name (unindex-Unique id p.name (lookup p.name s.by_name) s.by_name u)

  Deleted-IsConsistent : IsConsistent s → IsConsistent t
  Deleted-IsConsistent v = record {
    keyed = λ i q e. ground (arith, v.keyed i q, lookup-deleted i);
    indexed = λ i q e. ground (arith, v.indexed i q, lookup-deleted i, contains-deleted q.name i);
    backed = Deleted-backed v;
    distinct = Deleted-distinct v.distinct;
    single =
        λ i j q r e f n w. ground (arith, v.single i j q r, lookup-deleted i, lookup-deleted j);
    owned =
        λ i e. ground (arith, v.owned i, lookup-deleted i, d.content, lookup-erase id i s.content);
  }

pub delete-IsConsistent :
    (cancelled : Bool) (s : PackageStore) (id : String) {t : PackageStore}
    → delete cancelled s id ≡ ok t
    → IsConsistent s
    → IsConsistent t
delete-IsConsistent cancelled s id {t} h v =
    let (p, d) = delete-Deleted cancelled s t id h in Deleted-IsConsistent d v

-- Only the content map changes, and content stays with a package.
content-IsConsistent :
    (s : PackageStore) (c : Map (List ℕ))
    → IsConsistent s
    → ((i : String) → exists (lookup i c) ≡ true → exists (lookup i s.packages) ≡ true)
    → IsConsistent (record s { content = c })
content-IsConsistent s c v o = record {
  keyed = v.keyed;
  indexed = v.indexed;
  backed = v.backed;
  distinct = v.distinct;
  single = v.single;
  owned = o;
}

pub save_content-IsConsistent :
    (cancelled : Bool) (s : PackageStore) (id : String) (bytes : List ℕ) {t : PackageStore}
    → save_content cancelled s id bytes ≡ ok t
    → IsConsistent s
    → IsConsistent t
unfolding save_content
save_content-IsConsistent cancelled s id bytes {t} h v =
    let e : t ≡ record s { content = insert id bytes s.content } = ground arith in
    let there : exists (lookup id s.packages) ≡ true = ground arith in
    subst IsConsistent (sym e) (
      content-IsConsistent s (insert id bytes s.content) v
        (λ i c. ground (arith, lookup-insert id i bytes s.content, v.owned i, eq_iff id i)))

pub delete_content-IsConsistent :
    (cancelled : Bool) (s : PackageStore) (id : String) {t : PackageStore}
    → delete_content cancelled s id ≡ ok t
    → IsConsistent s
    → IsConsistent t
unfolding delete_content
delete_content-IsConsistent cancelled s id {t} h v =
    let e : t ≡ record s { content = erase id s.content } = ground arith in
    subst IsConsistent (sym e) (
      content-IsConsistent s (erase id s.content) v
        (λ i c. ground (arith, lookup-erase id i s.content, v.owned i)))
