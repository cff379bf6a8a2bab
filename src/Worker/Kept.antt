-- ===== src/Worker/Kept.antt =====
-- Which items a round of the action worker touches, and how often.
use text.Mathlib.Text.{◌==◌}
use text.Mathlib.TextEquality.{eq_iff}
use dynamic_nft_krnl.Base.{
  ℕ, suc, ◌≡◌, refl, sym, ◌∙◌, ap, inl, inr, Bool, false, ◌&&◌, ◌||◌, not, subst, ◌⊎◌, Option, none,
  some, String, List, [], ◌∷◌, arith, if◌then◌else◌, Bool-cases,
}
use dynamic_nft_krnl.Store.{Store}
use dynamic_nft_krnl.Worker.Queue.{ActionStatus, ActionItem, WorkerState, is_retry_due}
use dynamic_nft_krnl.Worker.Actions.{Ending, done, thrown}
use dynamic_nft_krnl.Worker.Actions.Kinds.{execute_action}
use dynamic_nft_krnl.Worker.Run.{
  Turn, is_failed, update_item, started, ended, run_item, process_item, process_items,
}

-- The item with an id, the first one.
unfoldable pub find_item : String → List ActionItem → Option ActionItem
find_item id [] = none
find_item id (i ∷ is) = let rest = find_item id is in if i.id == id then some i else rest

-- An update that keeps the id.
unfoldable pub KeepsId : (ActionItem → ActionItem) → Type 0
KeepsId f = (i : ActionItem) → (f i).id ≡ i.id

find_item-update_other :
    (id other : String) (f : ActionItem → ActionItem) (queue : List ActionItem)
    → KeepsId f
    → other == id ≡ false
    → find_item id (update_item other f queue) ≡ find_item id queue
unfolding find_item update_item KeepsId
find_item-update_other id other f [] k e = refl
find_item-update_other id other f (i ∷ is) k e = ground (
  arith,
  find_item-update_other id other f is k e,
  k i,
  eq_iff i.id other,
  eq_iff i.id id,
  eq_iff other id,
)

abbrev pub mapped : (ActionItem → ActionItem) → Option ActionItem → Option ActionItem
mapped f none = none
mapped f (some i) = some (f i)

find_item-update_self :
    (id : String) (f : ActionItem → ActionItem) (queue : List ActionItem)
    → KeepsId f
    → find_item id (update_item id f queue) ≡ mapped f (find_item id queue)
unfolding find_item update_item KeepsId
find_item-update_self id f [] k = refl
find_item-update_self id f (i ∷ is) k = ground (arith, find_item-update_self id f is k, k i)

-- Whether an item of the list has the id, and whether no two have the same.
abbrev pub mentions : String → List ActionItem → Bool
mentions id [] = false
mentions id (i ∷ is) = i.id == id || mentions id is

abbrev pub HasUniqueIds : List ActionItem → Type 0
HasUniqueIds [] = Unit
HasUniqueIds (i ∷ is) = (mentions i.id is ≡ false) × HasUniqueIds is

pub started-KeepsId : (now : ℕ) → KeepsId (started now)
unfolding started KeepsId
started-KeepsId now i = refl

pub ended-KeepsId : (now : ℕ) (e : Ending) (s : Store) → KeepsId (ended now e s)
unfolding ended KeepsId
ended-KeepsId now done s i = refl
ended-KeepsId now (thrown m) s i = refl

-- An item after it was run once: one attempt more, and at rest.
abbrev pub IsRunOnce : ActionItem → ActionItem → Type 0
IsRunOnce i j =
    (j.attempts ≡ suc i.attempts)
    × ((j.status ≡ ActionStatus.succeeded) ⊎ (j.status ≡ ActionStatus.failed))

ran : Turn → Ending → Store → ActionItem → ActionItem
ran turn e s i = ended turn.finished e s (started turn.now i)

ran-IsRunOnce :
    (turn : Turn) (e : Ending) (s : Store) (i : ActionItem) → IsRunOnce i (ran turn e s i)
unfolding ran ended started
ran-IsRunOnce turn done s i = (refl, inl refl)
ran-IsRunOnce turn (thrown m) s i = (refl, inr refl)

run_self :
    (turn : Turn) (item i : ActionItem) (w : WorkerState)
    → find_item item.id w.queue ≡ some i
    → let out = execute_action turn.action item w.store in
      find_item item.id (run_item turn item w).queue ≡ some (ran turn out.0 out.1 i)
unfolding run_item ran
run_self turn item i w e =
    let out = execute_action turn.action item w.store in
    find_item-update_self item.id (ended turn.finished out.0 out.1)
      (update_item item.id (started turn.now) w.queue) (ended-KeepsId turn.finished out.0 out.1)
    ∙ ap (mapped (ended turn.finished out.0 out.1)) (
        find_item-update_self item.id (started turn.now) w.queue (started-KeepsId turn.now)
        ∙ ap (mapped (started turn.now)) e)

run_other :
    (turn : Turn) (item : ActionItem) (id : String) (w : WorkerState)
    → item.id == id ≡ false
    → find_item id (run_item turn item w).queue ≡ find_item id w.queue
unfolding run_item
run_other turn item id w e =
    let out = execute_action turn.action item w.store in
    find_item-update_other id item.id (ended turn.finished out.0 out.1)
      (update_item item.id (started turn.now) w.queue) (ended-KeepsId turn.finished out.0 out.1) e
    ∙ find_item-update_other id item.id (started turn.now) w.queue (started-KeepsId turn.now) e

process_other :
    (turn : Turn) (item : ActionItem) (id : String) (w : WorkerState)
    → item.id == id ≡ false
    → find_item id (process_item turn item w).queue ≡ find_item id w.queue
unfolding process_item
process_other turn item id w e =
    elim (Bool-cases (is_failed item.status && not (is_retry_due turn.now item))) [
      | inl later ↦ rw (later, process_item) refl
      | inr due ↦ rw (due, process_item) (run_other turn item id w e)
    ]

pub items_other :
    (turns : String → Turn) (items : List ActionItem) (id : String) (w : WorkerState)
    → mentions id items ≡ false
    → find_item id (process_items turns items w).queue ≡ find_item id w.queue
unfolding process_items
items_other turns [] id w e = refl
items_other turns (i ∷ is) id w e =
    items_other turns is id (process_item (turns i.id) i w) (ground arith)
    ∙ process_other (turns i.id) i id w (ground arith)

-- The item is as it was, or it was run once.
abbrev pub IsTurn : String → ActionItem → List ActionItem → Type 0
IsTurn id i queue =
    (find_item id queue ≡ some i)
    ⊎ ((j : ActionItem) × (find_item id queue ≡ some j) × IsRunOnce i j)

process_self :
    (turn : Turn) (item i : ActionItem) (w : WorkerState)
    → find_item item.id w.queue ≡ some i
    → IsTurn item.id i (process_item turn item w).queue
unfolding process_item
process_self turn item i w e =
    let out = execute_action turn.action item w.store in
    elim (Bool-cases (is_failed item.status && not (is_retry_due turn.now item))) [
      | inl later ↦ rw (later, process_item) (inl e)
      | inr due ↦
          rw (due, process_item)
            (inr
              (ran turn out.0 out.1 i, run_self turn item i w e, ran-IsRunOnce turn out.0 out.1 i))
    ]

pub items_turn :
    (turns : String → Turn) (items : List ActionItem) (id : String) (i : ActionItem)
    (w : WorkerState)
    → HasUniqueIds items
    → find_item id w.queue ≡ some i
    → IsTurn id i (process_items turns items w).queue
unfolding process_items
items_turn turns [] id i w u e = inl e
items_turn turns (item ∷ items) id i w u e = elim (Bool-cases (item.id == id)) [
  | inr other ↦
      items_turn turns items id i (process_item (turns item.id) item w) u.1
        (process_other (turns item.id) item id w other ∙ e)
  | inl this ↦
      let same = (eq_iff item.id id).0 this in
      rw (items_other turns items id (process_item (turns item.id) item w) (rw same at u.0)) (
        subst (λ x. IsTurn x i (process_item (turns item.id) item w).queue) same
          (process_self (turns item.id) item i w (rw (sym same) at e)))
]
