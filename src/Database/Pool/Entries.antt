-- ===== src/Database/Pool/Entries.antt =====
-- internal/database/pool.go: the entries of the pool's map after each of its operations.
use safe_my_sqlmcp_server.Base.{
  ℕ, Text, text_eq, text_eq_iff, Map, lookup, insert, delete, Bool, true, false, [], ◌∷◌, some, ◌≡◌,
  ◌≢◌, ◌⊎◌, ◌∙◌, inl, inr, refl, sym, ap, Bool-cases, if◌then◌else◌, ◌==◌,
}
use safe_my_sqlmcp_server.Config.{ClustersConfig}
use safe_my_sqlmcp_server.Database.Pool.{
  Db, ManagedDb, count_in, release_in, increment, decrement, is_stale, mark, mark_stale, to_close,
}

-- An entry of a map, wherever it stands.
abbrev pub In : Text → ManagedDb → Map ManagedDb → Type 0
In k m [] = ⊥
In k m ((j, w) ∷ cs) = ((j ≡ k) × (w ≡ m)) ⊎ In k m cs

pub lookup-In : (k : Text) (m : ManagedDb) (cs : Map ManagedDb) → lookup k cs ≡ some m → In k m cs
unfolding lookup
lookup-In k m [] e = absurd (cc e)
lookup-In k m ((j, w) ∷ cs) e = elim (Bool-cases (text_eq j k)) [
  | inl same ↦ inl ((text_eq_iff j k).0 same, cc (rw (lookup, same) at e))
  | inr other ↦ inr (lookup-In k m cs (rw (lookup, other) at e))
]

pub In-insert :
    (j k : Text) (m v : ManagedDb) (cs : Map ManagedDb)
    → In j m (insert k v cs)
    → ((k ≡ j) × (v ≡ m)) ⊎ In j m cs
unfolding insert
In-insert j k m v [] h = h
In-insert j k m v ((i, w) ∷ cs) h = elim (Bool-cases (text_eq i k)) [
  | inl same ↦ elim (rw (insert, same) at h) [ inl new ↦ inl new | inr old ↦ inr (inr old) ]
  | inr other ↦ elim (rw (insert, other) at h) [
    | inl first ↦ inr (inl first)
    | inr later ↦ elim (In-insert j k m v cs later) [ inl new ↦ inl new | inr old ↦ inr (inr old) ]
  ]
]

pub In-delete :
    (j k : Text) (m : ManagedDb) (cs : Map ManagedDb) → In j m (delete k cs) → In j m cs × (j ≢ k)
unfolding delete
In-delete j k m [] h = absurd h
In-delete j k m ((i, w) ∷ cs) h = elim (Bool-cases (text_eq i k)) [
  | inl same ↦
      let (old, differs) = In-delete j k m cs (rw (delete, same) at h) in (inr old, differs)
  | inr other ↦ elim (rw (delete, other) at h) [
    | inl (here, is) ↦ (inl (here, is), λ e. cc (other, (text_eq_iff i k).1 (here ∙ e)))
    | inr later ↦ let (old, differs) = In-delete j k m cs later in (inr old, differs)
  ]
]

-- An entry of the same name and with the same handle.
abbrev pub HasHandle : Text → Db → Map ManagedDb → Type 0
HasHandle k db cs = (m : ManagedDb) × In k m cs × (m.db ≡ db)

HasHandle-later :
    (k : Text) (db : Db) (c : Text × ManagedDb) (cs : Map ManagedDb)
    → HasHandle k db cs
    → HasHandle k db (c ∷ cs)
HasHandle-later k db c cs (m, h, e) = (m, inr h, e)

db-if :
    (b : Bool) (v w : ManagedDb) {m : ManagedDb}
    → v.db ≡ w.db
    → (if b then v else w) ≡ m
    → w.db ≡ m.db
db-if true v w same is = sym same ∙ ap (λ n. n.db) is
db-if false v w same is = ap (λ n. n.db) is

pub In-mark_stale :
    (old new : ClustersConfig) (k : Text) (m : ManagedDb) (cs : Map ManagedDb)
    → In k m (mark_stale old new cs)
    → HasHandle k m.db cs
unfolding mark_stale
In-mark_stale old new k m [] h = absurd h
In-mark_stale old new k m ((j, w) ∷ cs) (inl (here, is)) =
    (w, inl (here, refl), db-if (is_stale old new j) (mark w) w refl is)
In-mark_stale old new k m ((j, w) ∷ cs) (inr later) =
    HasHandle-later k m.db (j, w) cs (In-mark_stale old new k m cs later)

pub In-to_close :
    (old new : ClustersConfig) (k : Text) (m : ManagedDb) (cs : Map ManagedDb)
    → In k m (to_close old new cs)
    → HasHandle k m.db cs
unfolding to_close
In-to_close old new k m [] h = absurd h
In-to_close old new k m ((j, w) ∷ cs) h = elim (Bool-cases (is_stale old new j)) [
  | inl stale ↦ elim (rw (to_close, stale) at h) [
    | inl (here, is) ↦ (w, inl (here, refl), ap (λ n. n.db) is)
    | inr later ↦ HasHandle-later k m.db (j, w) cs (In-to_close old new k m cs later)
  ]
  | inr fits ↦
      HasHandle-later k m.db (j, w) cs (In-to_close old new k m cs (rw (to_close, fits) at h))
]

pub In-count_in :
    (id : ℕ) (k : Text) (m : ManagedDb) (cs : Map ManagedDb)
    → In k m (count_in id cs)
    → HasHandle k m.db cs
unfolding count_in
In-count_in id k m [] h = absurd h
In-count_in id k m ((j, w) ∷ cs) (inl (here, is)) =
    (w, inl (here, refl), db-if (w.db.id == id) (increment w) w refl is)
In-count_in id k m ((j, w) ∷ cs) (inr later) =
    HasHandle-later k m.db (j, w) cs (In-count_in id k m cs later)

pub In-release_in :
    (id : ℕ) (k : Text) (m : ManagedDb) (cs : Map ManagedDb)
    → In k m (release_in id cs)
    → HasHandle k m.db cs
unfolding release_in
In-release_in id k m [] h = absurd h
In-release_in id k m ((j, w) ∷ cs) (inl (here, is)) =
    (w, inl (here, refl), db-if (w.db.id == id) (decrement w) w refl is)
In-release_in id k m ((j, w) ∷ cs) (inr later) =
    HasHandle-later k m.db (j, w) cs (In-release_in id k m cs later)
