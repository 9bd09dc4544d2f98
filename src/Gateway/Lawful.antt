-- ===== src/Gateway/Lawful.antt =====
-- Whatever an agent sends comes to calls of `transitionFromAgent`.
use relaydock.Prelude.{Bool, List, ◌≡◌}
use relaydock.Jobs.Table.{JobTable}
use relaydock.Jobs.Transition.Laws.{ServiceCall}
use relaydock.Jobs.Transition.Histories.{perform_all}
use relaydock.Gateway.Agent.{Outcome}

module _ {Db : Type 0} (table : JobTable Db) (has_notifier : Bool) where
  -- The table after some calls.
  abbrev Calls : Db → Db → Type 0
  Calls db db' = (cs : List ServiceCall) × (db' ≡ perform_all table has_notifier db cs)

  -- A handler comes to some calls.
  record IsClient (db : Db) (o : Outcome Db) : Type 0 where
    calls : Calls db o.0
