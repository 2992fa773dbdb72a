-- ===== src/Access/Tests.antt =====
-- The access theorem at a concrete header.
use fast_tak.Base.{◌≡◌, ◌≢◌, refl, ◌↔◌, none, some, List, [], ◌∷◌, In, nat_eq}
use fast_tak.Base.Result.{ok}
use fast_tak.Base.Text.{codes, strip, lstrip, rstrip, is_space}
use fast_tak.Access.{Group, auth_context, require_group}
use fast_tak.Access.Groups.{AreGroups, join_commas, require_group_members}

abbrev admins : List Group
admins = codes "monitor_admin" ∷ codes "ops" ∷ []

admins-AreGroups : AreGroups admins
unfolding strip lstrip rstrip is_space nat_eq
admins-AreGroups = ((refl, (λ e. cc), refl), ((refl, (λ e. cc), refl), tt))

require_group_members_example :
    (require_group none
          (codes "ops")
          (auth_context (record { remote_user = none; remote_groups = some (join_commas admins) }))
        ≡ ok tt
      ↔ In (codes "ops") admins)
    × (require_group none
          (codes "ops")
          (auth_context (record { remote_user = none; remote_groups = none }))
        ≢ ok tt)
require_group_members_example =
    require_group_members none none (codes "ops") admins admins-AreGroups
