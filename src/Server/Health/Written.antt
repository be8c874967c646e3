-- ===== src/Server/Health/Written.antt =====
-- `updateVaultCRStatus`: what it writes, and when it stops a monitor.
use vault_operator.Base.{String, ◌≡◌, refl, ap, Option, none, some, List, Fallible, arith}
use vault_operator.Meta.{Object, Vendor}
use vault_operator.PatchUtil.{Client, Poller, UpdateState}
use vault_operator.PatchUtil.Status.{IsRead, IsWritten, update_status_ok}
use vault_operator.Server.Health.{
  ServerStatus, Monitors, monitor_key, copied, server_read, update_server_status,
}

-- The status `to` has of the local status what the monitor computes, and the rest of `from`.
pub record IsMerged (local from to : ServerStatus) : Type 0 where
  pub vault_status : to.vault_status ≡ local.vault_status
  pub initialized : to.initialized ≡ local.initialized
  pub updated_nodes : to.updated_nodes ≡ local.updated_nodes
  pub phase : to.phase ≡ local.phase
  pub service_name : to.service_name ≡ local.service_name
  pub client_port : to.client_port ≡ local.client_port
  pub observed_generation : to.observed_generation ≡ from.observed_generation
  pub conditions : to.conditions ≡ from.conditions

module _ {E Spec : Type 0} (v : Vendor) (c : Client E Spec ServerStatus)
    (updates : Poller (UpdateState E Spec ServerStatus)) (name namespace : String)
    (status : ServerStatus) where
  -- The server that was read first, the object `cur` that was read under its name, and the write that
  -- succeeded, of `cur` with a merged status.
  pub record IsReported (h : List E) (result : Option (Object Spec ServerStatus)) : Type 0 where
    pub server : Object Spec ServerStatus
    pub server_read : (c.get namespace name h).0 ≡ (server, none)
    pub cur : Object Spec ServerStatus
    pub cur_read : IsRead c server.meta cur
    pub merged : ServerStatus
    pub merged_lem : IsMerged status cur.status merged
    pub before : List E
    pub out : Object Spec ServerStatus
    pub written :
        (c.update_status server.meta.namespace (record cur { status = merged }) before).0
        ≡ (out, none)
    pub returned : result ≡ some out

  reported :
      (h : List E) (server : Object Spec ServerStatus) (result : Option (Object Spec ServerStatus))
      → (c.get namespace name h).0 ≡ (server, none)
      → IsWritten c server.meta (copied status) result
      → IsReported h result
  reported h server result p w = record {
    server = server;
    server_read = p;
    cur = w.cur;
    cur_read = w.cur_read;
    merged = copied status w.cur.status;
    merged_lem = record {
      vault_status = refl;
      initialized = refl;
      updated_nodes = refl;
      phase = refl;
      service_name = refl;
      client_port = refl;
      observed_generation = refl;
      conditions = refl;
    };
    before = w.before;
    out = w.out;
    written = w.written;
    returned = w.returned;
  }

  read-IsReported :
      (ks : Monitors) (h : List E) (r : Fallible (Object Spec ServerStatus) × List E)
      → c.get namespace name h ≡ r
      → (server_read v c updates (monitor_key namespace name) status ks r).0.0.1 ≡ none
      → IsReported h (server_read v c updates (monitor_key namespace name) status ks r).0.0.0
  unfolding server_read
  read-IsReported ks h ((vault, some e), h') p q = ground arith
  read-IsReported ks h ((vault, none), h') p q =
      reported h vault _ (ap (λ r. r.0) p)
        (update_status_ok v c vault.meta (copied status) updates h' q)

  -- When the status of a server was updated without an error, the server was read under its name,
  -- and the object that is returned answers a successful status update; that wrote an object read
  -- under the same name, with the active, standby, sealed, unsealed and updated nodes, the phase, the
  -- service, the port and whether it is initialised taken from the local status, and with its own
  -- conditions and observed generation.
  pub server_status_ok :
      (ks : Monitors) (h : List E)
      → (update_server_status v c updates name namespace status ks h).0.0.1 ≡ none
      → IsReported h (update_server_status v c updates name namespace status ks h).0.0.0
  unfolding update_server_status
  server_status_ok ks h q = read-IsReported ks h (c.get namespace name h) refl q
