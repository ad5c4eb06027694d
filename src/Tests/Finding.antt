-- ===== src/Tests/Finding.antt =====
-- The search for servers, at the small cloud.
use machine_controller_manag.Executor.Delete.{find_machine}
use machine_controller_manag.Executor.Delete.Search.{IsFoundById, IsFoundByName, find_machine-found}
use machine_controller_manag.Base.{
  String, string_discrete, ◌≡◌, ◌⊎◌, ◌↔◌, refl, true, false, none, some, [], ◌∷◌, arith,
}
use machine_controller_manag.Base.Dict.{Dict, lookup, keys}
use machine_controller_manag.Action.{ok, panicked}
use machine_controller_manag.Text.{contains_text, has_prefix}
use machine_controller_manag.Text.Split.{has_slash}
use machine_controller_manag.Cloud.{Server}
use machine_controller_manag.Executor.Utils.{
  encode_provider_id, decode_provider_id, is_empty_string,
}
use machine_controller_manag.Executor.Utils.Laws.{decode-encode}
use machine_controller_manag.Executor.Find.{
  tag_round, search_tags_from, search_tags, get_machine_status, list_machines,
}
use machine_controller_manag.Executor.Find.Tags.{
  Only, search_tags-of_Only, is_cluster_tag, is_role_tag,
}
use machine_controller_manag.Executor.Find.Name.{HasTagNames, get_machine_status-panics}
use machine_controller_manag.Executor.Find.Listing.{Member, IsEntry, list_machines_exact}
use machine_controller_manag.Tests.World.{differ, tags, web, ex, ex_untagged}

abbrev the_tags : String × String
the_tags = ("kubernetes.io-cluster-c", "kubernetes.io-role-node")

pub search_tags_run : search_tags tags ≡ the_tags
unfolding search_tags search_tags_from tag_round string_discrete contains_text has_prefix
search_tags_run = refl

decode-encode_example : decode_provider_id (encode_provider_id "eu" "s-1") ≡ "s-1"
unfolding string_discrete has_slash
decode-encode_example = decode-encode "eu" "s-1" refl

tag_kinds :
    ((is_cluster_tag the_tags.0 ≡ true) × (is_cluster_tag the_tags.1 ≡ false))
    × ((is_role_tag the_tags.0 ≡ false) × (is_role_tag the_tags.1 ≡ true))
unfolding is_cluster_tag is_role_tag string_discrete contains_text has_prefix
tag_kinds = ((refl, refl), (refl, refl))

Only-cluster : Only is_cluster_tag the_tags.0 (keys tags)
Only-cluster key there tag = let ((a, b), _) = tag_kinds in ground arith

Only-role : Only is_role_tag the_tags.1 (keys tags)
Only-role key there tag = let (_, (a, b)) = tag_kinds in ground arith

search_tags-of_Only_example : search_tags tags ≡ the_tags
unfolding is_cluster_tag is_role_tag string_discrete contains_text has_prefix
search_tags-of_Only_example =
    search_tags-of_Only tags the_tags.0 the_tags.1 refl refl Only-cluster refl refl Only-role

pub has_tag_names : HasTagNames ex
unfolding search_tags search_tags_from tag_round string_discrete contains_text has_prefix
has_tag_names = (differ the_tags.0 "" refl, differ the_tags.1 "" refl)

get_machine_status-panics_example :
    ((get_machine_status ex_untagged "web" none).0 ≡ panicked) ↔ ¬ HasTagNames ex_untagged
get_machine_status-panics_example = get_machine_status-panics ex_untagged "web" none

list_machines_exact_example :
    let found = search_tags tags in
    (machines : Dict String) × (list_machines ex (some web) ≡ (ok machines, some web))
    × ((pid name : String)
        → lookup pid machines ≡ some name
        → (s : Server) × Member s (web ∷ []) × IsEntry ex found pid s × (s.name ≡ name))
    × ((pid : String) (s : Server)
        → Member s (web ∷ [])
        → IsEntry ex found pid s
        → ((t : Server) → Member t (web ∷ []) → IsEntry ex found pid t → t.name ≡ s.name)
        → lookup pid machines ≡ some s.name)
list_machines_exact_example =
    list_machines_exact ex (some web) (web ∷ []) (some web) (has_tag_names.0, has_tag_names.1, refl)

find_machine-found_example :
    (find_machine ex "web" "openstack:///eu/s-1" (some web) ≡ (ok (some web), some web)) ↔ (
      ((is_empty_string (some "openstack:///eu/s-1") ≡ false)
        × IsFoundById ex "web" (some web) (some web) web "openstack:///eu/s-1")
      ⊎ ((is_empty_string (some "openstack:///eu/s-1") ≡ true)
          × IsFoundByName ex "web" (some web) (some web) web))
find_machine-found_example =
    find_machine-found ex "web" (some web) (some web) web "openstack:///eu/s-1"
