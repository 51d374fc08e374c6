-- ===== src/Client/Current.antt =====
-- internal/client/deploy.go: the path `current`, written and restored.
pub mod Laws
use cert_keeper.Prelude.{
  ℕ, Text, Bool, true, false, not, ◌==◌, text_eq, Option, none, some, ok, err, refuse, any, filter,
  codes, List, [], ◌∷◌, ◌++◌, if◌then◌else◌,
}
use cert_keeper.Prelude.Steps.{lift, modify, inspect, ◌>>=◌, ◌>>◌}
use cert_keeper.Protocol.Identifiers.{validate_generation_id}
use cert_keeper.Client.Tree.{
  Current, absent, link, special, Tree, Phase, restoring, stat_switched, remove_temporary,
  make_link, rename_link, sync_out, stat_restored, remove_current, sync_removed, World, system,
  bad_current, link_exists, Deploying,
}
use cert_keeper.Client.Read.{call, or_invalid, release_target}

abbrev pub is_special : Current → Bool
is_special special = true
is_special _ = false

abbrev pub is_absent : Current → Bool
is_absent absent = true
is_absent _ = false

-- `_ = os.Remove(temporaryPath)`.
unfoldable pub without_temporary : World → Phase → Text → Tree → Tree
without_temporary w phase generation t = elim (w.fails (remove_temporary phase)) [
  | none ↦ record t { temporaries = filter (λ g. not (g == generation)) t.temporaries }
  | some e ↦ t
]

unfoldable pub with_temporary : Text → Tree → Tree
with_temporary generation t = record t { temporaries = generation ∷ t.temporaries }

-- The link takes the place of `current` at once.
unfoldable pub switched : Text → Tree → Tree
switched generation t = record t {
  current = link (release_target generation);
  temporaries = filter (λ g. not (g == generation)) t.temporaries;
}

-- `writeDeploymentCurrent` up to the call that puts the link in the place of `current`.
unfoldable pub prepare_link : World → Phase → Text → Deploying (Unit {0})
prepare_link w phase generation = do
  lift (or_invalid (validate_generation_id generation))
  lift (call w (stat_switched phase))
  inspect (λ t. refuse (is_special t.current) bad_current)
  modify (without_temporary w phase generation)
  inspect (λ t. refuse (any (λ g. g == generation) t.temporaries) link_exists)
  lift (call w (make_link phase))
  modify (with_temporary generation)
  lift (call w (rename_link phase))

unfoldable pub write_deployment_current : World → Phase → Text → Deploying (Unit {0})
write_deployment_current w phase generation = do
  prepare_link w phase generation
  modify (switched generation)
  lift (call w (sync_out phase))

unfoldable pub without_current : Tree → Tree
without_current t = record t { current = absent }

unfoldable pub remove_deployment_current : World → Deploying (Unit {0})
remove_deployment_current w = do
  inspect (λ t. refuse (is_special t.current) bad_current)
  lift (call w remove_current)
  modify without_current
  lift (call w sync_removed)

unfoldable pub remove_if_there : World → Deploying (Unit {0})
remove_if_there w t = if is_absent t.current then (t, ok tt) else remove_deployment_current w t

unfoldable pub restore_deployment_current : World → Option Text → Deploying (Unit {0})
restore_deployment_current w (some previous) = write_deployment_current w restoring previous
restore_deployment_current w none = do lift (call w stat_restored); remove_if_there w
