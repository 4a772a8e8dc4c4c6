-- ===== src/RoomUi/Tabs/Tests.antt =====
-- Drags over three tabs, and the keys in a menu of three items.
use mathlib.Core.List.{Perm}
use xbin.Common.{ℕ, ◌≡◌, ◌<◌, refl, not, some, List, [], ◌∷◌, ◌++◌, String, keep, str_eq, arith}
use xbin.RoomUi.Tabs.{before, after, insert_at, reorder_live_tab_ids, next_live_menu_item_index}
use xbin.RoomUi.Tabs.Order.{pair, reorder_live_tab_ids-Perm, reorder_live_tab_ids-beside}
use xbin.RoomUi.Tabs.Menu.{arrows_undo}

abbrev tabs : List String
tabs = "a" ∷ "b" ∷ "c" ∷ []

dragged : reorder_live_tab_ids tabs "a" "c" after ≡ "b" ∷ "c" ∷ "a" ∷ []
unfolding reorder_live_tab_ids insert_at
dragged = refl

reorder_live_tab_ids-Perm_example : Perm (reorder_live_tab_ids tabs "a" "c" before) tabs
reorder_live_tab_ids-Perm_example = reorder_live_tab_ids-Perm tabs "a" "c" before refl

reorder_live_tab_ids-beside_example :
    (front : List String) × (back : List String) × (keep (λ id. not (str_eq id "a")) tabs
      ≡ front ++ "c" ∷ back)
    × (reorder_live_tab_ids tabs "a" "c" after ≡ front ++ pair after "a" "c" back)
reorder_live_tab_ids-beside_example = reorder_live_tab_ids-beside tabs "a" "c" after refl refl refl

around_the_end :
    ((j : ℕ) × (j < 3)
      × (next_live_menu_item_index 2 3 "ArrowDown" ≡ some j)
      × (next_live_menu_item_index j 3 "ArrowUp" ≡ some 2))
    × ((k : ℕ) × (k < 3)
        × (next_live_menu_item_index 2 3 "ArrowUp" ≡ some k)
        × (next_live_menu_item_index k 3 "ArrowDown" ≡ some 2))
around_the_end = arrows_undo 2 3 (omega arith)
