-- ===== src/Tests/Server/Access.antt =====
-- Joining a brain, and requests about it (packages/relay/src/routes/brains.ts).
use kontexta.Base.{◌≡◌, refl, ◌≢◌, true, none, some, arith, eq_iff}
use kontexta.Relay.Admin.{delete_machine}
use kontexta.Relay.Admin.Scope.{delete_machine_locks_out}
use kontexta.Relay.Members.{
  create_brain, find_brain_by_share_hash, hash_token, validate_client_token,
}
use kontexta.Relay.Join.{JoinOptions, JoinRequest, hash_route_id, may_create, join_brain}
use kontexta.Relay.Join.Access.{join_grants}
use kontexta.Tests.Server.{small_db, toy_hmac, same_text, small_header}

abbrev joining : JoinRequest
joining = record { route_id = "r"; machine_id = "m2"; hostname = none; name = "brain" }

abbrev open_server : JoinOptions
open_server = record { pepper = "p"; enroll_secret = ""; allow_open_create = true }

join_grants_example :
    validate_client_token toy_hmac "p" "new"
      (join_brain toy_hmac same_text 9 open_server "new" "" joining small_db).0
    ≡ some (record { brain_id = 2; machine_id = "m2" })
unfolding join_brain may_create validate_client_token hash_token find_brain_by_share_hash
    hash_route_id create_brain
join_grants_example =
    join_grants toy_hmac same_text 9 open_server "new" "" joining small_db
      (λ e. grind (arith, e, eq_iff "new" "")) refl (record { brain_id = 2; machine_id = "m2" })
      refl

delete_machine_locks_out_example :
    validate_client_token toy_hmac "p" "k"
      (delete_machine toy_hmac "p" (some "Bearer k") "m1" small_db).0
    ≢ some (record { brain_id = 1; machine_id = "m1" })
delete_machine_locks_out_example =
    delete_machine_locks_out toy_hmac "p" (some "Bearer k") small_db
      (record { brain_id = 1; machine_id = "m1" }) small_header "m1" "k"
