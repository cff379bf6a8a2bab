-- ===== src/Me/Opened.antt =====
-- What an opening does, from the request's brand and wallet on.
use dynamic_nft_krnl.Base.{
  none-ne-some, some_injective, ℕ, ◌<◌, ◌≡◌, refl, sym, ap, ◌⊎◌, inl, inr, false, Option, none,
  some, String, List, arith, Option-cases, Bool-cases,
}
use dynamic_nft_krnl.Base.Int.{ℤ, pos, ◌≤ℤ◌}
use dynamic_nft_krnl.Lootbox.{LootTableEntry, random_steps}
use dynamic_nft_krnl.Store.{Store, Ledgers}
use dynamic_nft_krnl.Krnl.Submit.{WorkflowSubmission}
use dynamic_nft_krnl.Mint.{
  MintState, minted, submitted, EnsureBaseNftMintResult, ensure_base_nft_minted, non_empty,
}
use dynamic_nft_krnl.Mint.Frame.{Kept, Kept-IsSame, ensure-Kept}
use dynamic_nft_krnl.Ledger.Closed.{IsSame, IsSame-refl, IsSame-trans}
use dynamic_nft_krnl.Ledger.{consume}
use dynamic_nft_krnl.Me.{MeEnv, Response, opened, internal_error}
use dynamic_nft_krnl.Me.Open.{
  Draw, refused, drawn, keys_per_open, opened_as, prepare_open, unlock, submit_open,
  unlock_and_submit, open_with_token, open_after_mint, open_for_wallet,
}
use dynamic_nft_krnl.Me.Outcomes.{consume_lem, IsSpent, drawn_lem, is_opened}

-- Nothing was spent and nothing opened, or the keys were spent.
abbrev pub IsOpening : MeEnv → String → String → Store → Response × Store → Type 0
IsOpening env brand wallet s out =
    (IsSame s.ledgers out.1.ledgers × (is_opened out.0 ≡ false)) ⊎ IsSpent env brand wallet s out

-- The answer after the transaction.
abbrev Answers : ℤ → ℤ → List LootTableEntry → Response → Type 0
Answers n balance picked r =
    ((w : WorkflowSubmission) × (r ≡ opened w picked n balance)) ⊎ (r ≡ internal_error)

Answers-cast :
    {b b' : ℤ} (n : ℤ) (picked : List LootTableEntry) (r : Response)
    → b ≡ b'
    → Answers n b picked r
    → Answers n b' picked r
Answers-cast n picked r same a = rw same at a

opened_as_lem :
    (n balance : ℤ) (picked : List LootTableEntry) (o : Option WorkflowSubmission)
    → Answers n balance picked (opened_as n balance picked o)
opened_as_lem n balance picked none = inr refl
opened_as_lem n balance picked (some w) = inl (w, refl)

submit_open_lem :
    (env : MeEnv) (brand wallet token : String) (n balance : ℤ) (picked : List LootTableEntry)
    (s : Store)
    → let out = submit_open env brand wallet token n balance picked s in
      (out.1.economy ≡ s.economy) × Answers n balance picked out.0
unfolding submit_open
submit_open_lem env brand wallet token n balance picked s =
    elim (Bool-cases (env.encodes token picked)) [
      | inr odd ↦ rw (odd, submit_open) (refl, inr refl)
      | inl fine ↦ rw (fine, submit_open) (refl, opened_as_lem n balance picked _)
    ]

unlock_lem :
    (brand wallet : String) (n balance : ℤ) (picked : List LootTableEntry) (s t : Store)
    → unlock brand wallet n picked s ≡ some (balance, t)
    → (l : Ledgers) × (consume brand wallet n s.ledgers ≡ some (balance, l))
      × (t.economy ≡ l.economy)
unfolding unlock
unlock_lem brand wallet n balance picked s t e =
    elim (Option-cases (consume brand wallet n s.ledgers)) [
      | inl gone ↦ absurd (none-ne-some (balance, t) (rw (gone, unlock) at e))
      | inr ((rest, l), consumed) ↦
          let pair = sym (some_injective _ (balance, t) (rw (consumed, unlock) at e)) in
          (l, rw (ap (λ p. p.0) pair) consumed, rw (ap (λ p. p.1) pair) refl)
    ]

one_le_keys : (brand : String) (s : Store) → pos 1 ≤ℤ keys_per_open brand s
one_le_keys brand s = ground arith

spent_lem :
    (env : MeEnv) (brand wallet token : String) (picked : List LootTableEntry) (s : Store)
    → ((i : ℕ) → env.random i < random_steps)
    → prepare_open env brand wallet s ≡ drawn (keys_per_open brand s) picked
    → IsOpening env brand wallet s
        (unlock_and_submit env brand wallet token (keys_per_open brand s) picked s)
unfolding unlock_and_submit
spent_lem env brand wallet token picked s range e =
    let n = keys_per_open brand s in
    elim (Option-cases (unlock brand wallet n picked s)) [
      | inl gone ↦ rw (gone, unlock_and_submit) (inl (IsSame-refl s.ledgers, refl))
      | inr ((balance, t), taken) ↦
          let (_, sample, filled) = drawn_lem env brand wallet s n picked range e in
          let (l, consumed, kept) = unlock_lem brand wallet n balance picked s t taken in
          let (r, there, covered, rest, row) =
            consume_lem brand wallet n s.ledgers l balance (one_le_keys brand s) consumed in
          let (still, answer) = submit_open_lem env brand wallet token n balance picked t in
          rw (taken, unlock_and_submit)
            (inr (record {
              row = r;
              picked = picked;
              there = there;
              covered = covered;
              economy = rw (still, kept) row;
              sample = sample;
              some_picked = filled;
              answer = Answers-cast n picked _ rest answer;
            }))
    ]

Draw-cases :
    (d : Draw)
    → ((code : ℕ) × (why : String) × (d ≡ refused code why))
      ⊎ ((n : ℤ) × (picked : List LootTableEntry) × (d ≡ drawn n picked))
Draw-cases (refused code why) = inl (code, why, refl)
Draw-cases (drawn n picked) = inr (n, picked, refl)

State-cases : (m : MintState) → (m ≡ submitted) ⊎ (m ≡ minted)
State-cases submitted = inl refl
State-cases minted = inr refl

with_token_lem :
    (env : MeEnv) (brand wallet token : String) (s : Store)
    → ((i : ℕ) → env.random i < random_steps)
    → IsOpening env brand wallet s (open_with_token env brand wallet token s)
unfolding open_with_token
with_token_lem env brand wallet token s range =
    elim (Draw-cases (prepare_open env brand wallet s)) [
      | inl (code, why, e) ↦ rw (e, open_with_token) (inl (IsSame-refl s.ledgers, refl))
      | inr (n, picked, e) ↦
          let same = (drawn_lem env brand wallet s n picked range e).0 in
          rw (e, same, open_with_token)
            (spent_lem env brand wallet token picked s range (rw same at e))
    ]

after_mint_lem :
    (env : MeEnv) (brand wallet : String) (r : EnsureBaseNftMintResult) (s : Store)
    → ((i : ℕ) → env.random i < random_steps)
    → IsOpening env brand wallet s (open_after_mint env brand wallet r s)
unfolding open_after_mint
after_mint_lem env brand wallet r s range = elim (State-cases r.state) [
  | inl waiting ↦ rw (waiting, open_after_mint) (inl (IsSame-refl s.ledgers, refl))
  | inr done ↦ elim (Option-cases (non_empty r.token_id)) [
    | inl no_token ↦ rw (done, no_token, open_after_mint) (inl (IsSame-refl s.ledgers, refl))
    | inr (token, held) ↦
        rw (done, held, open_after_mint) (with_token_lem env brand wallet token s range)
  ]
]

-- What an opening did after the mint, seen from before the mint.
before_mint :
    (env : MeEnv) (brand wallet : String) (s m : Store) (out : Response × Store)
    → Kept s m
    → IsOpening env brand wallet m out
    → IsOpening env brand wallet s out
before_mint env brand wallet s m out k (inl (same, closed)) =
    inl (IsSame-trans s.ledgers m.ledgers out.1.ledgers (Kept-IsSame s m k) same, closed)
before_mint env brand wallet s m out k (inr r) = inr (record {
  row = r.row;
  picked = r.picked;
  there = rw (k.economy) at r.there;
  covered = rw (k.lootbox_configs) at r.covered;
  economy = rw (k.lootbox_configs) at r.economy;
  sample = rw (k.lootbox_configs, k.user_traits) at r.sample;
  some_picked = r.some_picked;
  answer = rw (k.lootbox_configs) at r.answer;
})

-- Opening a lootbox spends keys exactly when it unlocks: either experience and keys stay in all
-- five ledgers, for every wallet, and nothing is answered as opened; or the wallet had the keys
-- that one opening costs, at least one, exactly those are gone, and the traits picked are a sample
-- of the configured table that holds none the wallet had; the answer then shows them with the new
-- balance, or is an error where the workflow could not be submitted, and the keys are spent all the
-- same.
pub open_outcome :
    (env : MeEnv) (brand wallet : String) (s : Store)
    → ((i : ℕ) → env.random i < random_steps)
    → IsOpening env brand wallet s (open_for_wallet env brand wallet s)
unfolding open_for_wallet
open_outcome env brand wallet s range =
    let m = ensure_base_nft_minted env.mint brand wallet s in
    let kept = ensure-Kept env.mint brand wallet s in
    elim (Option-cases m.0) [
      | inl thrown ↦ rw (thrown, open_for_wallet) (inl (Kept-IsSame s m.1 kept, refl))
      | inr (r, done) ↦
          rw (done, open_for_wallet)
            (before_mint env brand wallet s m.1 _ kept
              (after_mint_lem env brand wallet r m.1 range))
    ]
