-- ===== src/Worker/Rounds.antt =====
-- What rounds of the action worker do to an item.
use text.Mathlib.Text.{◌==◌}
use text.Mathlib.TextEquality.{eq_iff}
use dynamic_nft_krnl.Base.{
  ℕ, suc, zero, ◌≡◌, refl, sym, ◌∙◌, inl, inr, ◌⊎◌, Bool, true, false, some, String, List, [], ◌∷◌,
  arith, Bool-cases, keep, take, some_injective,
}
use dynamic_nft_krnl.Worker.Queue.{ActionItem, WorkerState}
use dynamic_nft_krnl.Worker.Run.{Turn, is_eligible, process_action_queue}
use dynamic_nft_krnl.Worker.Kept.{
  find_item, mentions, HasUniqueIds, IsRunOnce, items_other, items_turn,
}

mentions-keep :
    (p : ActionItem → Bool) (id : String) (q : List ActionItem)
    → mentions id q ≡ false
    → mentions id (keep p q) ≡ false
unfolding keep
mentions-keep p id [] e = refl
mentions-keep p id (i ∷ is) e = ground (arith, mentions-keep p id is)

mentions-take :
    (n : ℕ) (id : String) (q : List ActionItem)
    → mentions id q ≡ false
    → mentions id (take n q) ≡ false
mentions-take zero id q e = refl
mentions-take (suc n) id [] e = refl
mentions-take (suc n) id (i ∷ is) e = ground (arith, mentions-take n id is)

keep-HasUniqueIds :
    (p : ActionItem → Bool) (q : List ActionItem) → HasUniqueIds q → HasUniqueIds (keep p q)
unfolding keep
keep-HasUniqueIds p [] u = tt
keep-HasUniqueIds p (i ∷ is) u = elim (Bool-cases (p i)) [
  | inl wanted ↦ rw wanted (mentions-keep p i.id is u.0, keep-HasUniqueIds p is u.1)
  | inr unwanted ↦ rw unwanted (keep-HasUniqueIds p is u.1)
]

take-HasUniqueIds : (n : ℕ) (q : List ActionItem) → HasUniqueIds q → HasUniqueIds (take n q)
take-HasUniqueIds zero q u = tt
take-HasUniqueIds (suc n) [] u = tt
take-HasUniqueIds (suc n) (i ∷ is) u = (mentions-take n i.id is u.0, take-HasUniqueIds n is u.1)

-- An item that the query does not want is not among its results, under any of their ids.
left_out :
    (p : ActionItem → Bool) (id : String) (i : ActionItem) (q : List ActionItem)
    → HasUniqueIds q
    → find_item id q ≡ some i
    → p i ≡ false
    → mentions id (keep p q) ≡ false
unfolding find_item keep
left_out p id i [] u e unwanted = refl
left_out p id i (j ∷ js) u e unwanted = elim (Bool-cases (j.id == id)) [
  | inr other ↦
      let rest = left_out p id i js u.1 (rw (other, find_item) at e) unwanted in
      elim (Bool-cases (p j)) [ inl wanted ↦ rw wanted (rw other rest) | inr out ↦ rw out rest ]
  | inl this ↦
      let same : j ≡ i = some_injective j i (rw (this, find_item) at e) in
      let gone : mentions id js ≡ false = rw (sym ((eq_iff j.id id).0 this)) u.0 in
      rw (same, unwanted) (mentions-keep p id js gone)
]

-- A round of the action worker, whatever its actions meet, leaves an item as it is unless the item
-- is pending or failed with fewer than five attempts; such an item it leaves or runs once, which
-- adds one attempt and ends with the item succeeded or failed. The ids in the queue must differ.
pub round_turn :
    (turns : String → Turn) (id : String) (i : ActionItem) (w : WorkerState)
    → HasUniqueIds w.queue
    → find_item id w.queue ≡ some i
    → (find_item id (process_action_queue turns w).queue ≡ some i)
      ⊎ ((is_eligible i ≡ true)
          × ((j : ActionItem) × (find_item id (process_action_queue turns w).queue ≡ some j)
              × IsRunOnce i j))
unfolding process_action_queue
round_turn turns id i w u e =
    let picked = take 5 (keep is_eligible w.queue) in
    elim (Bool-cases (is_eligible i)) [
      | inr unwanted ↦ inl (
          items_other turns picked id w (
            mentions-take 5 id (keep is_eligible w.queue)
              (left_out is_eligible id i w.queue u e unwanted))
          ∙ e)
      | inl wanted ↦
          elim (items_turn turns picked id i w
            (take-HasUniqueIds 5 (keep is_eligible w.queue)
              (keep-HasUniqueIds is_eligible w.queue u))
            e) [ inl same ↦ inl same | inr (j, found, once) ↦ inr (wanted, (j, found, once)) ]
    ]
