-- ===== src/Queue/Items.antt =====
-- internal/queue/queue.go: the list of items, walked from its back.
use periapsis.Base.{Bytes, str_eq, List, [], ◌∷◌, ltb, if◌then◌else◌, Time}
use periapsis.Queue.Types.{QueueItem}

-- What lies before the cursor, nearest first, put back in front of what lies after it.
unfoldable pub reverse_onto : List QueueItem → List QueueItem → List QueueItem
reverse_onto [] rest = rest
reverse_onto (x ∷ before) rest = reverse_onto before (x ∷ rest)

-- The loops `for item := …; item != nil; item = item.Prev()` of insert and of adjustPosition: the
-- item goes behind the last one that plans to start before it, or to the front.
unfoldable pub place : QueueItem → List QueueItem → List QueueItem → List QueueItem
place val [] later = val ∷ later
place val (x ∷ before) later =
    let further = place val before (x ∷ later) in
    if ltb x.planned_to_start_work_at val.planned_to_start_work_at
    then reverse_onto before (x ∷ val ∷ later)
    else further

-- The loop of insert, from the back of the list.
unfoldable pub insert_item : QueueItem → List QueueItem → List QueueItem
insert_item val items = place val (reverse_onto items []) []

-- adjustPosition, with a cursor that looks for the element of the key.
unfoldable pub adjust_from : Bytes → Time → List QueueItem → List QueueItem → List QueueItem
adjust_from key when before [] = reverse_onto before []
adjust_from key when before (qi ∷ rest) =
    let on = adjust_from key when (qi ∷ before) rest in
    if str_eq qi.key key
    then (if ltb qi.planned_to_start_work_at when
        then reverse_onto before (qi ∷ rest)
        else place (record qi { planned_to_start_work_at = when }) before rest)
    else on

unfoldable pub adjust_position : Bytes → Time → List QueueItem → List QueueItem
adjust_position key when items = adjust_from key when [] items

-- items.Remove of the element of the key
unfoldable pub remove_item : Bytes → List QueueItem → List QueueItem
remove_item key [] = []
remove_item key (qi ∷ rest) = if str_eq qi.key key then rest else qi ∷ remove_item key rest

-- A write through the pointer to the item of the key.
unfoldable pub update_item : Bytes → (QueueItem → QueueItem) → List QueueItem → List QueueItem
update_item key f [] = []
update_item key f (qi ∷ rest) =
    if str_eq qi.key key then f qi ∷ rest else qi ∷ update_item key f rest
