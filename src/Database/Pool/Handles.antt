-- ===== src/Database/Pool/Handles.antt =====
-- internal/database/pool.go: the handles that the pool has and has closed.
use safe_my_sqlmcp_server.Base.{
  ℕ, ◌+◌, ◌<◌, Text, Map, List, [], ◌∷◌, All, Exists, ◌≡◌, ◌∙◌, inl, inr, sym, ap, subst, arith,
}
use safe_my_sqlmcp_server.Database.Pool.{Db, ManagedDb, Pool, managed, add_db}
use safe_my_sqlmcp_server.Database.Pool.Entries.{In, HasHandle, In-insert}

abbrev pub IsClosed : Pool → ℕ → Type 0
IsClosed p id = Exists (λ c. c ≡ id) p.closed

-- Handles have been numbered up to the next one, no entry has a closed handle, and two entries have
-- the same handle only if they have the same name.
pub record IsSound (p : Pool) : Type 0 where
  pub fresh : (k : Text) (m : ManagedDb) → In k m p.clusters → m.db.id < p.next_db
  pub unclosed : (k : Text) (m : ManagedDb) → In k m p.clusters → ¬ IsClosed p m.db.id
  pub numbered : All (λ c. c < p.next_db) p.closed
  pub single :
      (j k : Text) (m n : ManagedDb)
      → In j m p.clusters
      → In k n p.clusters
      → m.db.id ≡ n.db.id
      → j ≡ k

-- The handles of some entries that wait to be closed belong to no entry of another name.
abbrev pub Owns : Pool → Map ManagedDb → Type 0
Owns p waiting =
    (k : Text) (m : ManagedDb)
    → In k m waiting
    → (m.db.id < p.next_db)
      × ((j : Text) (n : ManagedDb) → In j n p.clusters → n.db.id ≡ m.db.id → j ≡ k)

-- Entries that keep their names and handles.
abbrev pub Keeps : Pool → Map ManagedDb → Type 0
Keeps p cs = (k : Text) (m : ManagedDb) → In k m cs → HasHandle k m.db p.clusters

pub IsSound-keep :
    (p : Pool) (cs : Map ManagedDb) → IsSound p → Keeps p cs → IsSound (record p { clusters = cs })
IsSound-keep p cs s keep = record {
  fresh = λ k m h.
      let (o, old, same) = keep k m h in subst (λ db. db.id < p.next_db) same (s.fresh k o old);
  unclosed = λ k m h.
      let (o, old, same) = keep k m h in subst (λ db. ¬ IsClosed p db.id) same (s.unclosed k o old);
  numbered = s.numbered;
  single = λ j k m n h i e.
      let (o, old, same) = keep j m h in
      let (q, other, alike) = keep k n i in
      s.single j k o q old other (ap (λ db. db.id) same ∙ e ∙ sym (ap (λ db. db.id) alike));
}

pub Owns-keep :
    (p : Pool) (cs waiting : Map ManagedDb)
    → Owns p waiting
    → Keeps p cs
    → Owns (record p { clusters = cs }) waiting
Owns-keep p cs waiting owns keep k m h =
    let (low, only) = owns k m h in
    (low, (λ j n i e. let (o, old, same) = keep j n i in only j o old (ap (λ db. db.id) same ∙ e)))

not_yet : (n : ℕ) (xs : List ℕ) → All (λ c. c < n) xs → ¬ Exists (λ c. c ≡ n) xs
not_yet n [] h e = e
not_yet n (x ∷ xs) (low, h) (inl same) = omega (arith, low, same)
not_yet n (x ∷ xs) (low, h) (inr later) = not_yet n xs h later

All-suc : (n : ℕ) (xs : List ℕ) → All (λ c. c < n) xs → All (λ c. c < n + 1) xs
All-suc n [] h = tt
All-suc n (x ∷ xs) (low, h) = (omega (arith, low), All-suc n xs h)

-- A handle that was just opened is new to the pool.
pub IsSound-add_db :
    (name : Text) (db : Db) (p : Pool) → db.id ≡ p.next_db → IsSound p → IsSound (add_db name db p)
IsSound-add_db name db p next s = record {
  fresh = λ k m h. elim (In-insert k name m (managed db) p.clusters h) [
    | inl (_, is) ↦ omega (arith, ap (λ n. n.db.id) is, next)
    | inr old ↦ omega (arith, s.fresh k m old)
  ];
  unclosed = λ k m h c. elim (In-insert k name m (managed db) p.clusters h) [
    | inl (_, is) ↦
        not_yet p.next_db p.closed s.numbered
          (subst (λ id. IsClosed p id) (sym (ap (λ n. n.db.id) is) ∙ next) c)
    | inr old ↦ s.unclosed k m old c
  ];
  numbered = All-suc p.next_db p.closed s.numbered;
  single = λ j k m n h i e. elim (In-insert j name m (managed db) p.clusters h) [
    | inl (here, is) ↦ elim (In-insert k name n (managed db) p.clusters i) [
      | inl (there, _) ↦ sym here ∙ there
      | inr old ↦ absurd (omega (arith, s.fresh k n old, ap (λ n. n.db.id) is, next, e))
    ]
    | inr old ↦ elim (In-insert k name n (managed db) p.clusters i) [
      | inl (there, is) ↦ absurd (omega (arith, s.fresh j m old, ap (λ n. n.db.id) is, next, e))
      | inr older ↦ s.single j k m n old older e
    ]
  ];
}

pub Owns-add_db :
    (name : Text) (db : Db) (p : Pool) (waiting : Map ManagedDb)
    → db.id ≡ p.next_db
    → Owns p waiting
    → Owns (add_db name db p) waiting
Owns-add_db name db p waiting next owns k m h =
    let (low, only) = owns k m h in
    (
      omega (arith, low),
      (λ j n i e. elim (In-insert j name n (managed db) p.clusters i) [
        | inl (_, is) ↦ absurd (omega (arith, low, ap (λ n. n.db.id) is, next, e))
        | inr old ↦ only j n old e
      ]),
    )
