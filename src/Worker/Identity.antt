-- ===== src/Worker/Identity.antt =====
-- packages/worker/src/utils/worker-identity.ts. The host's name and a new UUID are arguments.
use outboxy.Base.{[], ◌++◌, Option, Text, codes, includes, is_empty, take, if◌then◌else◌, ◌or_else◌}

pub data IdentitySource : Type 0 where
  env hostname uuid : IdentitySource

pub record WorkerIdentity : Type 0 where
  pub id : Text
  pub source : IdentitySource

unfoldable pub resolve_worker_id : Option Text → (host random : Text) → WorkerIdentity
resolve_worker_id config_worker_id host random =
    if is_empty (config_worker_id or_else [])
    then (if includes (codes "-") host
        then record { id = host; source = IdentitySource.hostname }
        else record { id = codes "worker-" ++ take 8 random; source = IdentitySource.uuid })
    else record { id = config_worker_id or_else []; source = IdentitySource.env }
