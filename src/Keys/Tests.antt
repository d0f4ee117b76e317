-- ===== src/Keys/Tests.antt =====
-- A member that is opened, rotates its key, gets a second one and leaves.
use nexusapi_enterprise.Prelude.{◌≡◌, refl, [], ◌∷◌, some}
use nexusapi_enterprise.Keys.{
  MemberRow, provisional_member, find_token, offboard_member, get_member_by_newapi_token_id,
  find_member, bootstrapped, point_to, bootstrap_done,
}
use nexusapi_enterprise.Keys.Steps.{
  KeyRun, stays, then_key, updates, offboards, HasState, ServiceRun, then_service,
}
use nexusapi_enterprise.Keys.Reach.{KeysAgree, keys_agree}
use nexusapi_enterprise.Keys.Attribution.{attribution_stays}
use nexusapi_enterprise.Keys.Samples.{token_of, finalized, rotated_store, rotate_member, opened_run}

is_done : HasState finalized 3 1 bootstrap_done
unfolding find_member
is_done = (bootstrapped (token_of 70 1) (provisional_member 3 1 (5 ∷ [])), refl, refl)

still_done : HasState rotated_store 3 1 bootstrap_done
unfolding find_member
still_done = (
  point_to (token_of 71 2) (bootstrapped (token_of 70 1) (provisional_member 3 1 (5 ∷ []))),
  refl,
  refl,
)

abbrev until_offboarded : ServiceRun (offboard_member 3 1 rotated_store)
until_offboarded =
    then_service (then_service opened_run (updates 3 1 (token_of 71 2) rotate_member) is_done)
      (offboards 3 1) still_done

keys_agree_example : KeysAgree (offboard_member 3 1 rotated_store)
keys_agree_example = keys_agree until_offboarded

abbrev rotated_run : KeyRun finalized (offboard_member 3 1 rotated_store)
rotated_run = then_key (then_key stays (updates 3 1 (token_of 71 2) rotate_member)) (offboards 3 1)

abbrev opened_member : MemberRow
opened_member = bootstrapped (token_of 70 1) (provisional_member 3 1 (5 ∷ []))

first_attribution : get_member_by_newapi_token_id 70 finalized ≡ some (opened_member, 1)
unfolding find_token find_member
first_attribution = refl

attribution_stays_example :
    (u : MemberRow) × (get_member_by_newapi_token_id 70 (offboard_member 3 1 rotated_store)
      ≡ some (u, 1))
    × (u.org_id ≡ opened_member.org_id)
    × (u.id ≡ opened_member.id)
attribution_stays_example = attribution_stays 70 opened_member 1 rotated_run first_attribution
