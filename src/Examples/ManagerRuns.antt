-- ===== src/Examples/ManagerRuns.antt =====
-- Sessions in the four shards of a SessionManager, and its nicknames.
use server_application.Common.{
  ℕ, ◌≡◌, Bool, false, none, List, [], ◌∷◌, arith, length, pos, negsuc, ◌==◌, Map, lookup, Text,
  text_key, int_key, select, has_key, entry_of,
}
use server_application.Manager.{
  new_manager, find_session, copied, for_each_session, session_count, unregister_nickname,
}
use server_application.Manager.Shards.{
  Op, add, remove, perform_all, specified_all, manager_refines_map,
}
use server_application.Manager.Visits.{for_each_session_once}
use server_application.Manager.Nicknames.{unregister_nickname_never_returns}

abbrev same_generation : ℕ → ℕ
same_generation r = r

abbrev none_closed : ℕ → Bool
none_closed r = false

abbrev some_calls : List Op
some_calls =
    add (pos 1) 10 ∷ add (pos 5) 11 ∷ add (pos 1) 12 ∷ remove (pos 5) ∷ add (negsuc 0) 13 ∷ []

manager_refines_map_example :
    (find_session (perform_all same_generation none_closed some_calls (new_manager 4)).0 (pos 1)
      ≡ lookup (pos 1) (specified_all same_generation none_closed some_calls []).0)
    × ((perform_all same_generation none_closed some_calls (new_manager 4)).1
        ≡ (specified_all same_generation none_closed some_calls []).1)
manager_refines_map_example =
    manager_refines_map same_generation none_closed 4 some_calls (pos 1) (omega arith)

for_each_session_once_example :
    (select
        (has_key (pos 1))
        (copied (perform_all same_generation none_closed some_calls (new_manager 4)).0)
      ≡ entry_of (pos 1) (
          find_session
            (perform_all same_generation none_closed some_calls (new_manager 4)).0
            (pos 1)))
    × (length
          (for_each_session (perform_all same_generation none_closed some_calls (new_manager 4)).0)
        ≡ session_count (perform_all same_generation none_closed some_calls (new_manager 4)).0)
for_each_session_once_example =
    for_each_session_once same_generation none_closed 4 some_calls (pos 1) (omega arith)

abbrev ann : Text
ann = 97 ∷ []

abbrev ben : Text
ben = 98 ∷ []

abbrev two_names : Map Text ℕ
two_names = (ann, 3) ∷ (ben, 4) ∷ []

abbrev only_three : ℕ → Bool
only_three r = r == 3

unregister_nickname_never_returns_example :
    unregister_nickname only_three ann 3 false two_names ≡ none
unregister_nickname_never_returns_example =
    unregister_nickname_never_returns only_three ann 3 false two_names
