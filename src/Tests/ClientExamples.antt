-- ===== src/Tests/ClientExamples.antt =====
-- The theorems on clients and their members, applied to the sample platform.
use idp_be.Prelude.{
  ◌≤◌, String, ◌≡◌, refl, sym, ap, ◌∙◌, true, false, not, ◌&&◌, none, some, [], ◌∷◌, inl, inr,
  Bool-cases, eq_iff, ◌==◌, includes,
}
use idp_be.Exec.{ok}
use idp_be.Schema.{Client, UserClientRelation, owner, admin, member}
use idp_be.Platform.{World}
use idp_be.Client.Repository.{ClientChanges}
use idp_be.Client.Service.{update_client}
use idp_be.Client.RoleGuard.{rank, can_activate, can_activate_lem}
use idp_be.Client.Ownership.{IsOwnedBy, role_of}
use idp_be.Client.Scopes.{update_client_apart}
use idp_be.Tests.Store.{Entries}
use idp_be.Tests.Sample.{SampleDb, sample, sample_db, start, alice, site}
use idp_be.Tests.Memberships.{client-UpdateLaws}
use idp_be.Tests.Runs.{runs}

no_role :
    (v : String)
    → (v == "alice") ≡ false
    → (v == "bob") ≡ false
    → role_of sample start "site" v ≡ none
no_role v a b = rw (a, b)

bob_is_member : role_of sample start "site" "bob" ≡ some member
bob_is_member = refl

-- Only alice owns the sample's client.
only_alice : (u : String) → role_of sample start "site" u ≡ some owner → u ≡ "alice"
only_alice u h = elim (Bool-cases (u == "alice")) [
  | inl same ↦ (eq_iff u "alice").0 same
  | inr other ↦ elim (Bool-cases (u == "bob")) [
    | inl same ↦
        cc
          (sym bob_is_member ∙ sym (ap (role_of sample start "site") ((eq_iff u "bob").0 same)) ∙ h)
    | inr other' ↦ cc (sym (no_role u other other') ∙ h)
  ]
]

pub owned : IsOwnedBy sample start "site" "alice"
owned = record { owns = refl; alone = only_alice }

can_activate_runs :
    can_activate sample (some admin) (some "alice") (some "site") start ≡ (ok true, start)
unfolding runs
can_activate_runs = refl

can_activate_lem_example :
    (user_uuid : String) × (client_uuid : String) × (row : UserClientRelation) × (some "alice"
      ≡ some user_uuid)
    × (some "site" ≡ some client_uuid)
    × (sample.prisma.relations.find_unique
          (record { user_uuid = user_uuid; client_uuid = client_uuid })
          sample_db
        ≡ ok (some row))
    × (rank admin ≤ rank row.role)
    × (start ≡ start)
can_activate_lem_example =
    can_activate_lem sample admin (some "alice") (some "site") start start can_activate_runs

abbrev changes : ClientChanges
changes = record {
  name = none;
  urls = none;
  scopes = some ("email" ∷ []);
  optional_scopes = some ("email" ∷ "profile" ∷ []);
  id_token_allowed = none;
}

abbrev changed : Client
changed = record site { scopes = "email" ∷ []; optional_scopes = "profile" ∷ [] }

abbrev updated : World SampleDb Entries
updated = (update_client sample "site" changes alice start).1

update_runs : update_client sample "site" changes alice start ≡ (ok changed, updated)
unfolding runs
update_runs = refl

update_client_apart_example :
    (changed.scopes ≡ "email" ∷ [])
    × ((s : String)
        → includes s changed.optional_scopes
          ≡ (includes s ("email" ∷ "profile" ∷ []) && not (includes s ("email" ∷ []))))
update_client_apart_example =
    update_client_apart sample client-UpdateLaws "site" changes alice start updated changed
      ("email" ∷ []) ("email" ∷ "profile" ∷ []) refl refl update_runs
