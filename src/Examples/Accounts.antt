-- ===== src/Examples/Accounts.antt =====
-- A request on the accounts of the tests.
use open_whistle.Base.{◌≤◌, ◌≡◌, refl, none, some, [], ◌∷◌, arith}
use open_whistle.Base.Outcome.{ok, http}
use open_whistle.Models.{Db, AuditAction, log}
use open_whistle.Accounts.{count_active_privileged_admins, deactivate_user, deactivate, store}
use open_whistle.Accounts.Keys.{IsKeyed}
use open_whistle.Accounts.Availability.{Request, Requests, Requests-available}
use open_whistle.Examples.{settings, alice, bob, office}

abbrev without_bob : Db
without_bob =
    log alice AuditAction.admin_deactivated none (("username", some "bob") ∷ []) (some (some 1))
      (store (deactivate bob) office)

alice_deactivates : deactivate_user settings office alice 2 ≡ ok (without_bob, 2)
unfolding deactivate_user
alice_deactivates = refl

-- The last administrator cannot go.
bob_is_gone : deactivate_user settings without_bob bob 1 ≡ http 403
unfolding deactivate_user deactivate log
bob_is_gone = refl

requests : Requests settings office without_bob
requests = Requests.then_one Requests.none_yet (Request.deactivated alice 2 2 alice_deactivates)

office-IsKeyed : IsKeyed office.users
office-IsKeyed = ((refl, (refl, tt)), ((refl, tt), (tt, tt)))

office_has_one : 1 ≤ count_active_privileged_admins office
unfolding count_active_privileged_admins
office_has_one = omega arith

Requests-available_example :
    IsKeyed without_bob.users × (1 ≤ count_active_privileged_admins without_bob)
Requests-available_example = Requests-available office-IsKeyed office_has_one requests
