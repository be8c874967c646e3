-- ===== src/Access/Controller/Served.antt =====
-- The status that a run leaves decides whether the next run serves the request again.
use vault_operator.Access.Request.{Request}
