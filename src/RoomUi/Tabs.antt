-- ===== src/RoomUi/Tabs.antt =====
-- web/src/live-room-ui.ts: the order of the tabs after a drag, and the keys of a menu.
pub mod Order
pub mod Menu
mod Tests
use xbin.Common.{
  ℕ, suc, ◌+◌, ◌-◌, ◌%◌, String, Bool, true, false, not, ◌||◌, Option, none, some, List, [], ◌∷◌,
  ◌==◌, if◌then◌else◌, str_eq, includes, keep, is_some,
}

-- LiveTabDropPlacement
pub data Placement : Type 0 where
  before after : Placement

-- `order.splice(order.indexOf(target) + (placement === "after" ? 1 : 0), 0, source)`, on an order that
-- holds the target.
pub insert_at : Placement → String → String → List String → List String
insert_at placement source target [] = []
insert_at before source target (x ∷ xs) =
    let rest = insert_at before source target xs in
    if str_eq x target then source ∷ x ∷ xs else x ∷ rest
insert_at after source target (x ∷ xs) =
    let rest = insert_at after source target xs in
    if str_eq x target then x ∷ source ∷ xs else x ∷ rest

-- reorderLiveTabIDs
pub reorder_live_tab_ids : List String → String → String → Placement → List String
unfolding insert_at
reorder_live_tab_ids ids source target placement =
    if str_eq source target || not (includes source ids) || not (includes target ids)
    then ids
    else insert_at placement source target (keep (λ id. not (str_eq id source)) ids)

-- nextLiveMenuItemIndex, for an index of the menu
pub next_live_menu_item_index : ℕ → ℕ → String → Option ℕ
next_live_menu_item_index current count key =
    if count == 0
    then none
    else if str_eq key "Home"
    then some 0
    else if str_eq key "End"
    then some (count - 1)
    else if str_eq key "ArrowDown"
    then some ((current + 1 + count) % count)
    else if str_eq key "ArrowUp"
    then some ((current + count - 1) % count)
    else none
