-- ===== src/Tests/Arrays.antt =====
-- The sorted arrays and the match of groups.
use netopeer.Common.{◌≡◌, refl, true, List, [], ◌∷◌, some, CString, strcmp}
use netopeer.Nacm.StrArr.{sort_add, sort_del}
use netopeer.Nacm.StrArr.Order.{IsSorted}
use netopeer.Nacm.StrArr.Insert.{Adds, sort_add-Adds}
use netopeer.Nacm.Users.{collect_groups}
use netopeer.Nacm.Users.Collected.{Collects, external, memberships, collect_groups-Collects}
use netopeer.Tests.Data.{a, b, o, z, sys, nacm}

abbrev three : List CString
three = a ∷ b ∷ z ∷ []

three-IsSorted : IsSorted three
unfolding strcmp
three-IsSorted = ((refl, (refl, tt)), ((refl, tt), (tt, tt)))

two-IsSorted : IsSorted (b ∷ o ∷ [])
unfolding strcmp
two-IsSorted = ((refl, tt), (tt, tt))

sort_add_middle : sort_add true o three ≡ a ∷ b ∷ o ∷ z ∷ []
unfolding sort_add strcmp
sort_add_middle = refl

sort_add_again : sort_add true b three ≡ three
unfolding sort_add strcmp
sort_add_again = refl

sort_del_middle : sort_del b three ≡ some (a ∷ z ∷ [])
unfolding sort_del strcmp
sort_del_middle = refl

sort_add-Adds_example : Adds true o three (sort_add true o three)
sort_add-Adds_example = sort_add-Adds true o three three-IsSorted

collect_groups-Collects_example :
    Collects (external sys nacm a) (memberships a nacm.groups) (collect_groups sys nacm a)
collect_groups-Collects_example = collect_groups-Collects sys nacm a
