-- ===== src/Deployment/Events/Entries.antt =====
-- The metadata of a deployment, as src/deployment/deployment-events.service.ts and
-- src/deployment/deployment-tracker.service.ts change it.
use otto_handler.Prelude.{
  ◌≡◌, refl, false, ℕ, String, [], ◌∷◌, Option, some, arith, str_eq, eq_refl,
}
use otto_handler.Prelude.Maps.{lookup, insert, keys, has_key, lookup-insert}
use otto_handler.Deployment.Types.{
  DeploymentStatus, Value, items, Metadata, spread, or_empty, Deployment,
}
use otto_handler.Deployment.Tracker.{with_metadata, changed}
use otto_handler.Deployment.Details.{append_value, entries, add_entry}

-- A later object keeps the entries whose keys it does not have.
lookup-spread :
    (j : String) (a b : Metadata) → has_key j (keys b) ≡ false → lookup j (spread a b) ≡ lookup j a
unfolding spread has_key keys
lookup-spread j a [] e = refl
lookup-spread j a ((k, v) ∷ b) e =
    ground (arith, lookup-spread j (insert k v a) b, lookup-insert k j v a)

-- The metadata that a handler writes has the event at the end of the list for its kind, and every
-- other entry of the metadata found.
lookup-add_entry :
    (key : String) (entry : Value) (metadata : Option Metadata) (j : String)
    → str_eq key j ≡ false
    → (lookup key (add_entry key entry metadata)
        ≡ some (items (append_value (entries (lookup key (or_empty metadata))) entry)))
      × (lookup j (add_entry key entry metadata) ≡ lookup j (or_empty metadata))
unfolding add_entry spread
lookup-add_entry key entry metadata j n =
    let m = or_empty metadata in
    let value = items (append_value (entries (lookup key m)) entry) in
    (rw (lookup-insert key key value m, eq_refl key) refl, rw (lookup-insert key j value m, n) refl)

-- An update of the metadata alone keeps the ids, the ARNs, the URL and the error message of the row,
-- and the entries of its metadata whose keys the update does not have.
changed-with_metadata :
    (status : DeploymentStatus) (m : Metadata) (time : ℕ) (d : Deployment) (j : String)
    → has_key j (keys m) ≡ false
    → ((changed status (with_metadata m) time d).deployment_id ≡ d.deployment_id)
      × ((changed status (with_metadata m) time d).deploy_url ≡ d.deploy_url)
      × ((changed status (with_metadata m) time d).ecs_service_arn ≡ d.ecs_service_arn)
      × ((changed status (with_metadata m) time d).target_group_arn ≡ d.target_group_arn)
      × ((changed status (with_metadata m) time d).error_message ≡ d.error_message)
      × (lookup j (or_empty (changed status (with_metadata m) time d).metadata)
          ≡ lookup j (or_empty d.metadata))
unfolding changed
changed-with_metadata status m time d j n =
    (refl, refl, refl, refl, refl, lookup-spread j (or_empty d.metadata) m n)
