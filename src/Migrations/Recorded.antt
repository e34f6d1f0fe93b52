-- ===== src/Migrations/Recorded.antt =====
-- What is recorded in `schema_migrations`.
use Prim.Native.String.{count}
use cartnova_go_microservice.Prelude.{
  String, ◌≡◌, refl, ap, subst, true, Option, none, some, List, [], ◌∷◌, eq_refl, ltb,
  if◌then◌else◌, arith,
}
use cartnova_go_microservice.Go.{pg_error, ok, err}
use cartnova_go_microservice.Migrations.{
  is_applied, version_rows, Database, create_versions, exists_version, insert_version,
}

-- The version stands in the table.
abbrev pub IsListed : String → Option (List String) → Type 0
IsListed file none = ⊥
IsListed file (some versions) = is_applied file versions ≡ true

abbrev pub IsTable : Option (List String) → Type 0
IsTable none = ⊥
IsTable (some versions) = Unit

pub IsListed-IsTable : (file : String) (o : Option (List String)) → IsListed file o → IsTable o
IsListed-IsTable file none h = h
IsListed-IsTable file (some versions) h = tt

module _ {D : Type 0} where
  -- `schema_migrations` has the version.
  abbrev pub HasVersion : String → Database D → Type 0
  HasVersion file d = IsListed file d.versions

  pub insert_version-HasVersion :
      (file other : String) (content : D) (d tx : Database D)
      → insert_version D file (record d { content = content }) ≡ ok tx
      → HasVersion file tx × (HasVersion other d → HasVersion other tx)
  unfolding insert_version is_applied
  insert_version-HasVersion file other content d tx e = inserted d.versions refl e
    where
      inserted :
          (o : Option (List String))
          → d.versions ≡ o
          → (elim o [
            | none ↦ err (pg_error "42P01")
            | some versions ↦
                if ltb 100 (count file)
                then err (pg_error "22001")
                else if is_applied file versions
                then err (pg_error "23505")
                else ok (record d { content = content; versions = some (file ∷ versions) })
          ])
            ≡ ok tx
          → HasVersion file tx × (HasVersion other d → HasVersion other tx)
      inserted none k e = absurd (cc)
      inserted (some versions) k e =
          let same : record { content = content; versions = some (file ∷ versions) } ≡ tx =
            ground arith in
          let itself = eq_refl file in
          (
            subst (HasVersion file) same (ground arith),
            λ h. subst (HasVersion other) same (
                let g : is_applied other versions ≡ true = subst (IsListed other) k h in
                ground arith),
          )

  pub exists-HasVersion :
      (file : String) (d : Database D) → exists_version D file d ≡ ok true → HasVersion file d
  unfolding exists_version
  exists-HasVersion file d e = found d.versions e
    where
      found :
          (o : Option (List String))
          → (elim o [
            | none ↦ err (pg_error "42P01")
            | some versions ↦ ok (is_applied file versions)
          ])
            ≡ ok true
          → IsListed file o
      found none e = absurd (cc)
      found (some versions) e = ground arith

  pub HasVersion-exists :
      (file : String) (d : Database D) → HasVersion file d → exists_version D file d ≡ ok true
  unfolding exists_version
  HasVersion-exists file d h = found d.versions h
    where
      found :
          (o : Option (List String))
          → IsListed file o
          → (elim o [
            | none ↦ err (pg_error "42P01")
            | some versions ↦ ok (is_applied file versions)
          ])
            ≡ ok true
      found none h = absurd h
      found (some versions) h = ap ok h

  -- All of them are recorded.
  abbrev pub AllRecorded : List String → Database D → Type 0
  AllRecorded [] d = IsTable d.versions
  AllRecorded (file ∷ rest) d = HasVersion file d × AllRecorded rest d

  pub AllRecorded-IsTable :
      (files : List String) (d : Database D) → AllRecorded files d → IsTable d.versions
  AllRecorded-IsTable [] d h = h
  AllRecorded-IsTable (file ∷ rest) d h = AllRecorded-IsTable rest d h.1

  pub create_versions-IsTable : (d : Database D) → IsTable (create_versions D d).1.versions
  unfolding create_versions
  create_versions-IsTable d = tt

  -- CREATE TABLE IF NOT EXISTS leaves a table alone.
  pub create_versions_again : (d : Database D) → IsTable d.versions → (create_versions D d).1 ≡ d
  unfolding create_versions version_rows
  create_versions_again d h = ap (λ o. record d { versions = o }) (kept d.versions h)
    where
      kept : (o : Option (List String)) → IsTable o → some (version_rows o) ≡ o
      kept none h = absurd h
      kept (some versions) h = refl
