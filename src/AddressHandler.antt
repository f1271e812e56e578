-- ===== src/AddressHandler.antt =====
-- IPUpdateHandler.update of server/mlabns/handlers/update.py as a whole: what is read from
-- hostnames.json and what is put.
use mlab_ns.Base.{ℕ, Option, none, some, List}
use mlab_ns.Base.Errors.{PyError, Result, ok, raise}
use mlab_ns.Page.{Answer, received, http_error, url_error}
use mlab_ns.IpUpdate.{Production, Row}
use mlab_ns.Store.{Store, Outcome, apply_writes}
use mlab_ns.System.{address_writes}

-- What the handler reads and meets: hostnames.json, with none for one that is not valid JSON, the
-- time, the regular expressions of the deployment, and how its puts end.
pub record Addresses (F : Type 0) : Type 0 where
  pub hostnames : Answer (Option (List Row))
  pub now : ℕ
  pub production : Production
  pub ends : Outcome F

module _ {F : Type 0} where
  -- util.send_not_found(self) needs a method error, which IPUpdateHandler does not have.
  abbrev pub update_addresses :
      Addresses F → Answer (Option (List Row)) → Store F → Result {0} Unit × Store F
  update_addresses a http_error s = (raise PyError.attribute_error, s)
  update_addresses a url_error s = (raise PyError.url_error, s)
  update_addresses a (received none) s = (raise PyError.attribute_error, s)
  update_addresses a (received (some rows)) s =
      (ok tt, apply_writes a.ends (address_writes a.now a.production rows s) s)

  -- IPUpdateHandler.update
  unfoldable pub update : Addresses F → Store F → Result {0} Unit × Store F
  update a s = update_addresses a a.hostnames s
