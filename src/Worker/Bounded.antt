-- ===== src/Worker/Bounded.antt =====
-- How far rounds can take an item.
use text.Mathlib.Text.{◌==◌}
use dynamic_nft_krnl.Base.{
  ◌≤◌, ◌≡◌, refl, ◌∙◌, inl, inr, true, false, ◌&&◌, not, some, String, List, [], ◌∷◌, arith,
  Bool-cases, keep, take,
}
use dynamic_nft_krnl.Worker.Queue.{ActionItem, WorkerState, max_attempts, is_retry_due}
use dynamic_nft_krnl.Worker.Run.{
  Turn, is_failed, is_eligible, update_item, started, ended, process_items, process_action_queue,
  run_item, process_item,
}
use dynamic_nft_krnl.Worker.Actions.Kinds.{execute_action}
use dynamic_nft_krnl.Worker.Kept.{
  KeepsId, started-KeepsId, ended-KeepsId, find_item, mentions, HasUniqueIds, IsRunOnce,
}
use dynamic_nft_krnl.Worker.Rounds.{round_turn}

update-mentions :
    (id other : String) (f : ActionItem → ActionItem) (q : List ActionItem)
    → KeepsId f
    → mentions id (update_item other f q) ≡ mentions id q
unfolding update_item KeepsId
update-mentions id other f [] k = refl
update-mentions id other f (i ∷ is) k = ground (arith, update-mentions id other f is k, k i)

update-HasUniqueIds :
    (other : String) (f : ActionItem → ActionItem) (q : List ActionItem)
    → KeepsId f
    → HasUniqueIds q
    → HasUniqueIds (update_item other f q)
unfolding update_item KeepsId
update-HasUniqueIds other f [] k u = tt
update-HasUniqueIds other f (i ∷ is) k u = elim (Bool-cases (i.id == other)) [
  | inl this ↦
      rw (this, k i)
        (rw (update-mentions i.id other f is k) u.0, update-HasUniqueIds other f is k u.1)
  | inr apart ↦
      rw apart (rw (update-mentions i.id other f is k) u.0, update-HasUniqueIds other f is k u.1)
]

process-HasUniqueIds :
    (turn : Turn) (item : ActionItem) (w : WorkerState)
    → HasUniqueIds w.queue
    → HasUniqueIds (process_item turn item w).queue
unfolding process_item run_item
process-HasUniqueIds turn item w u =
    let out = execute_action turn.action item w.store in
    elim (Bool-cases (is_failed item.status && not (is_retry_due turn.now item))) [
      | inl later ↦ rw (later, process_item) u
      | inr due ↦
          rw (due, process_item)
            (update-HasUniqueIds item.id (ended turn.finished out.0 out.1)
              (update_item item.id (started turn.now) w.queue)
              (ended-KeepsId turn.finished out.0 out.1)
              (update-HasUniqueIds item.id (started turn.now) w.queue (started-KeepsId turn.now) u))
    ]

items-HasUniqueIds :
    (turns : String → Turn) (items : List ActionItem) (w : WorkerState)
    → HasUniqueIds w.queue
    → HasUniqueIds (process_items turns items w).queue
unfolding process_items
items-HasUniqueIds turns [] w u = u
items-HasUniqueIds turns (i ∷ is) w u =
    items-HasUniqueIds turns is (process_item (turns i.id) i w)
      (process-HasUniqueIds (turns i.id) i w u)

round-HasUniqueIds :
    (turns : String → Turn) (w : WorkerState)
    → HasUniqueIds w.queue
    → HasUniqueIds (process_action_queue turns w).queue
unfolding process_action_queue
round-HasUniqueIds turns w u = items-HasUniqueIds turns (take 5 (keep is_eligible w.queue)) w u

-- Rounds, one after the other.
unfoldable pub rounds : List (String → Turn) → WorkerState → WorkerState
unfolding process_action_queue
rounds [] w = w
rounds (turns ∷ more) w = rounds more (process_action_queue turns w)

-- What rounds can make of an item.
pub record IsLater (i j : ActionItem) : Type 0 where
  pub bounded : i.attempts ≤ max_attempts → j.attempts ≤ max_attempts
  pub grown : i.attempts ≤ j.attempts
  pub settled : is_eligible i ≡ false → j ≡ i

turned_lem : (i j : ActionItem) → is_eligible i ≡ true → IsRunOnce i j → IsLater i j
unfolding is_eligible
turned_lem i j wanted once = record {
  bounded = λ h. ground arith;
  grown = ground arith;
  settled = λ h. ground arith;
}

IsLater-trans : (i j k : ActionItem) → IsLater i j → IsLater j k → IsLater i k
IsLater-trans i j k p q = record {
  bounded = λ h. q.bounded (p.bounded h);
  grown = omega (arith, p.grown, q.grown);
  settled = λ h. q.settled (rw (p.settled h) h) ∙ p.settled h;
}

-- However many rounds run, an item of the queue stays there; it is never attempted more than five
-- times, its attempts never fall, and once it has succeeded, used up its attempts, or is left
-- running by a crash, no round touches it again. The ids in the queue must differ.
pub rounds-IsLater :
    (rs : List (String → Turn)) (id : String) (i : ActionItem) (w : WorkerState)
    → HasUniqueIds w.queue
    → find_item id w.queue ≡ some i
    → (j : ActionItem) × (find_item id (rounds rs w).queue ≡ some j) × IsLater i j
unfolding rounds
rounds-IsLater [] id i w u e =
    (i, e, record { bounded = λ h. h; grown = omega arith; settled = λ h. refl })
rounds-IsLater (turns ∷ more) id i w u e =
    let w' = process_action_queue turns w in
    let u' = round-HasUniqueIds turns w u in
    elim (round_turn turns id i w u e) [
      | inl same ↦ rounds-IsLater more id i w' u' same
      | inr (wanted, (j, found, once)) ↦
          let (k, there, later) = rounds-IsLater more id j w' u' found in
          (k, there, IsLater-trans i j k (turned_lem i j wanted once) later)
    ]
